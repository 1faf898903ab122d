-- ===== src/Base/Bytes.antt =====
-- Bytes, big-endian words, and the bit facts of the program, checked over their small ranges.
use Prim.Native.Nat.{ℕ, zero, suc, ◌+◌, ◌*◌, ◌/◌, ◌%◌, ◌<◌, bit_or}
use mathlib.Core.Path.{◌≡◌, refl}
use mathlib.Core.Bool.{Bool, true, ◌&&◌}
use mathlib.Core.List.{List, [], ◌∷◌, foldl}
use native.Mathlib.Omega.{arith}
use side_wire_kernel_su.Base.Tests.{◌==◌, ==_iff}

abbrev pub IsByte : ℕ → Type 0
IsByte b = b < 256

-- `v.to_be_bytes()` of a u16 and of a u32.
abbrev pub be16 : ℕ → List ℕ
be16 v = (v / 256 % 256) ∷ (v % 256) ∷ []

abbrev pub be32 : ℕ → List ℕ
be32 v = (v / 16777216 % 256) ∷ (v / 65536 % 256) ∷ (v / 256 % 256) ∷ (v % 256) ∷ []

-- `from_be_bytes`
abbrev pub from_be : List ℕ → ℕ
from_be = foldl (λ acc b. acc * 256 + b) 0

-- Whether a test holds of every number below a bound.
pub holds_below : (ℕ → Bool) → ℕ → Bool
holds_below test zero = true
holds_below test (suc bound) = holds_below test bound && test bound

pub holds_below-at :
    (test : ℕ → Bool) (bound k : ℕ) → holds_below test bound ≡ true → k < bound → test k ≡ true
unfolding holds_below
holds_below-at test zero k all h = absurd (omega arith)
holds_below-at test (suc bound) k all h = ground (arith, holds_below-at test bound k)

version_table : holds_below (λ k. bit_or 256 k == 256 + k) 256 ≡ true
unfolding holds_below
version_table = refl

pub bit_or_256 : (x : ℕ) → x < 256 → bit_or 256 x ≡ 256 + x
bit_or_256 x h =
    (==_iff _ _).0 (holds_below-at (λ k. bit_or 256 k == 256 + k) 256 x version_table h)

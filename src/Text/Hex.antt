-- ===== src/Text/Hex.antt =====
-- Hexadecimal digits, as `{byte:02x}` writes them and `from_str_radix(_, 16)` reads them.
use side_wire_kernel_su.Base.{
  ℕ, zero, suc, ◌+◌, ◌-◌, ◌*◌, ◌/◌, ◌%◌, ◌<◌, ◌≡◌, refl, ap, Bool, true, false, ◌&&◌, ◌||◌, List,
  [], ◌∷◌, leb, ltb, if◌then◌else◌, length, all, All, arith,
}
use side_wire_kernel_su.Base.Bytes.{IsByte}

abbrev pub hex_digit : ℕ → ℕ
hex_digit n = if ltb n 10 then 48 + n else 87 + n

-- `is_ascii_hexdigit`
abbrev pub is_ascii_hexdigit : ℕ → Bool
is_ascii_hexdigit c = (leb 48 c && leb c 57) || (leb 65 c && leb c 70) || (leb 97 c && leb c 102)

abbrev pub hex_value : ℕ → ℕ
hex_value c = if leb c 57 then c - 48 else if leb c 70 then c - 55 else c - 87

unfoldable pub to_hex : List ℕ → List ℕ
to_hex [] = []
to_hex (b ∷ bs) = hex_digit (b / 16) ∷ hex_digit (b % 16) ∷ to_hex bs

-- The bytes of the pairs of digits.
unfoldable pub from_pairs : List ℕ → List ℕ
from_pairs [] = []
from_pairs (a ∷ []) = []
from_pairs (a ∷ b ∷ cs) = (hex_value a * 16 + hex_value b) ∷ from_pairs cs

-- `A` to `F` are read like `a` to `f`.
abbrev pub lower : ℕ → ℕ
lower c = if leb 65 c && leb c 70 then c + 32 else c

abbrev pub lowers : List ℕ → List ℕ
lowers [] = []
lowers (c ∷ cs) = lower c ∷ lowers cs

hex_value-hex_digit : (n : ℕ) → n < 16 → hex_value (hex_digit n) ≡ n
hex_value-hex_digit n h = ground arith

pub hex_digit-is_digit : (n : ℕ) → n < 16 → is_ascii_hexdigit (hex_digit n) ≡ true
hex_digit-is_digit n h = ground arith

pub &&-true : (p q : Bool) → (p && q) ≡ true → (p ≡ true) × (q ≡ true)
&&-true true q h = (refl, h)
&&-true false q h = cc

pub from_pairs-to_hex : (bs : List ℕ) → All IsByte bs → from_pairs (to_hex bs) ≡ bs
unfolding from_pairs to_hex
from_pairs-to_hex [] h = refl
from_pairs-to_hex (b ∷ bs) (hb, hs) =
    let high : hex_value (hex_digit (b / 16)) ≡ b / 16 =
      hex_value-hex_digit (b / 16) (omega arith) in
    let low : hex_value (hex_digit (b % 16)) ≡ b % 16 =
      hex_value-hex_digit (b % 16) (omega arith) in
    rw (high, low, from_pairs-to_hex bs hs) (ap (λ x. x ∷ bs) (omega arith))

pub to_hex-digits : (bs : List ℕ) → All IsByte bs → all is_ascii_hexdigit (to_hex bs) ≡ true
unfolding to_hex
to_hex-digits [] h = refl
to_hex-digits (b ∷ bs) (hb, hs) = rw (
  hex_digit-is_digit (b / 16) (omega arith),
  hex_digit-is_digit (b % 16) (omega arith),
  to_hex-digits bs hs,
)

pub length-to_hex : (bs : List ℕ) → length (to_hex bs) ≡ 2 * length bs
unfolding to_hex
length-to_hex [] = refl
length-to_hex (b ∷ bs) = omega (arith, length-to_hex bs)

digit_pair :
    (a b : ℕ)
    → is_ascii_hexdigit a ≡ true
    → is_ascii_hexdigit b ≡ true
    → (hex_digit ((hex_value a * 16 + hex_value b) / 16) ≡ lower a)
      × (hex_digit ((hex_value a * 16 + hex_value b) % 16) ≡ lower b)
      × (hex_value a * 16 + hex_value b < 256)
digit_pair a b ha hb = ground arith

-- Two digits a byte: what is read is written back, in lower case.
pub to_hex-from_pairs :
    (n : ℕ) (cs : List ℕ)
    → length cs ≡ 2 * n
    → all is_ascii_hexdigit cs ≡ true
    → (to_hex (from_pairs cs) ≡ lowers cs)
      × All IsByte (from_pairs cs)
      × (length (from_pairs cs) ≡ n)
unfolding to_hex from_pairs
to_hex-from_pairs zero [] e h = (refl, tt, refl)
to_hex-from_pairs (suc n) [] e h = absurd (omega arith)
to_hex-from_pairs zero (a ∷ cs) e h = absurd (omega arith)
to_hex-from_pairs (suc n) (a ∷ []) e h = absurd (omega arith)
to_hex-from_pairs (suc n) (a ∷ b ∷ cs) e h =
    let (ha, h₁) = &&-true (is_ascii_hexdigit a) _ h in
    let (hb, h₂) = &&-true (is_ascii_hexdigit b) _ h₁ in
    let (high, low, small) = digit_pair a b ha hb in
    let (eq, bytes, len) = to_hex-from_pairs n cs (omega arith) h₂ in
    (rw (high, low, eq), (small, bytes), omega (arith, len))

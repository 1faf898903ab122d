-- ===== src/Secure/Noise.antt =====
-- The Noise transport of the `snow` crate, as security.rs uses it: a parameter of the model, with
-- what the code relies on as laws.
use side_wire_kernel_su.Base.{ℕ, ◌+◌, ◌≤◌, ◌≡◌, Option, some, List, length}

-- `snow::TransportState` of one side. `none` is an error of the crate.
pub record Noise : Type 1 where
  pub State : Type 0
  pub write_message : State → List ℕ → Option (State × List ℕ)
  pub read_message : State → List ℕ → Option (State × List ℕ)

-- The documented behaviour: a message has at most 65535 bytes and carries a tag of 16 bytes, and
-- what one side of an established session encrypts, the other decrypts to the same plaintext, the
-- two nonces stepping together. `IsSynced s r` says that `r` is the receiving side of sender `s`.
pub record NoiseLaws (n : Noise) : Type 1 where
  pub IsSynced : Noise.State n → Noise.State n → Type 0
  pub delivers :
      (s r : Noise.State n) (plain : List ℕ)
      → IsSynced s r
      → length plain + 16 ≤ 65535
      → (s' : Noise.State n) × (cipher : List ℕ) × (r' : Noise.State n) × (Noise.write_message n s
            plain
          ≡ some (s', cipher))
        × (Noise.read_message n r cipher ≡ some (r', plain))
        × (length cipher ≡ length plain + 16)
        × IsSynced s' r'

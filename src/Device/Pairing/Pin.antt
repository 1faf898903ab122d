-- ===== src/Device/Pairing/Pin.antt =====
-- apps/sidewired/src/security.rs: the PIN of the pairing file, and the count of its failures.
use side_wire_kernel_su.Base.{
  ℕ, ◌+◌, ◌-◌, ◌*◌, ◌^◌, ◌<◌, ◌≤◌, ◌≡◌, Bool, true, false, not, ◌&&◌, ◌||◌, Option, none, some,
  List, [], ◌∷◌, Result, ok, err, ltb, leb, ◌==◌, if◌then◌else◌, bytes_eq, ◌⊎◌, length, all, min,
}
use side_wire_kernel_su.Text.Lines.{lines, find_prefix}
use side_wire_kernel_su.Device.Pairing.Guard.{PairingGuard}

abbrev pub max_pin_failures : ℕ
max_pin_failures = 5

-- What reading the pairing file yields.
pub data PinFile : Type 0 where
  present : List ℕ → PinFile
  not_found unreadable : PinFile

pub data PairError : Type 0 where
  unreadable_file not_enabled major_mismatch exchange_failed host_changed pin_used not_stored :
      PairError

abbrev pub is_ascii_digit : ℕ → Bool
is_ascii_digit c = leb 48 c && leb c 57

-- The digits of a u64; more than it holds is an error.
unfoldable pub parse_digits : ℕ → List ℕ → Option ℕ
parse_digits acc [] = some acc
parse_digits acc (c ∷ cs) =
    let acc' = acc * 10 + (c - 48) in
    let rest = parse_digits acc' cs in
    if not (is_ascii_digit c) then none else if leb (2 ^ 64) acc' then none else rest

-- `parse::<u64>`: one `+` may stand in front of the digits.
unfoldable pub parse_u64 : List ℕ → Option ℕ
unfolding parse_digits
parse_u64 [] = none
parse_u64 (c ∷ []) = if is_ascii_digit c then some (c - 48) else none
parse_u64 (c ∷ d ∷ ds) = if c == 43 then parse_digits 0 (d ∷ ds) else parse_digits 0 (c ∷ d ∷ ds)

abbrev pub or_zero : Option ℕ → ℕ
or_zero none = 0
or_zero (some n) = n

abbrev pub parsed : Option (List ℕ) → Option ℕ
parsed none = none
parsed (some value) = parse_u64 value

abbrev pub valid_pin : ℕ → ℕ → Option (List ℕ) → Option (List ℕ)
valid_pin now until none = none
valid_pin now until (some pin) =
    if ltb until now || not (length pin == 6) || not (all is_ascii_digit pin)
    then none
    else some pin

abbrev pub pin_key : List ℕ
pin_key = b'p' ∷ b'i' ∷ b'n' ∷ b'=' ∷ []

abbrev pub until_key : List ℕ
until_key = b'u' ∷ b'n' ∷ b't' ∷ b'i' ∷ b'l' ∷ b'=' ∷ []

-- `now` is in seconds since the epoch. A PIN is counted in characters: six digits are six bytes.
unfoldable pub pairing_pin : PinFile → ℕ → Result PairError (Option (List ℕ))
pairing_pin unreadable now = err unreadable_file
pairing_pin not_found now = ok none
pairing_pin (present text) now = ok (
    valid_pin now (or_zero (parsed (find_prefix until_key (lines text))))
      (find_prefix pin_key (lines text)))

-- The pairing file and the guard.
pub record PairState : Type 0 where
  pub file : PinFile
  pub guard : PairingGuard

abbrev pub same_pin : Option (List ℕ) → List ℕ → Bool
same_pin none pin = false
same_pin (some current) pin = bytes_eq current pin

-- The failures of a new PIN are counted from 0.
abbrev pub counted : PairingGuard → List ℕ → PairingGuard
counted g pin =
    if same_pin g.current_pin pin then g else record g { current_pin = some pin; failures = 0 }

-- `saturating_add` on the u8.
abbrev pub add_failure : PairingGuard → PairingGuard
add_failure g = record g { failures = min (g.failures + 1) 255 }

-- `let _ = fs::remove_file(…)`, with whether the file is removed: a failure is passed over.
abbrev pub remove_file : Bool → PinFile → PinFile
remove_file true file = not_found
remove_file false file = file

-- At the limit the removal of the file is tried, and the count forgotten in any case.
abbrev pub limit_failures : Bool → PinFile → PairingGuard → Bool × PairState
limit_failures removes file g =
    if leb max_pin_failures g.failures
    then (
      true,
      record {
        file = remove_file removes file;
        guard = record g { current_pin = none; failures = 0 };
      },
    )
    else (false, record { file = file; guard = g })

abbrev pub record_failure :
    Bool → PairState → Result PairError (Option (List ℕ)) → Result PairError Bool × PairState
record_failure removes s (err e) = (err e, s)
record_failure removes s (ok none) = (ok false, s)
record_failure removes s (ok (some pin)) =
    let (closed, s') = limit_failures removes s.file (add_failure (counted s.guard pin)) in
    (ok closed, s')

unfoldable pub record_pair_failure : Bool → PairState → ℕ → Result PairError Bool × PairState
record_pair_failure removes s now = record_failure removes s (pairing_pin s.file now)

-- A number of failures, at times when the file is read anew; and whether it can be removed then.
unfoldable pub failures_run : PairState → List (ℕ × Bool) → PairState
failures_run s [] = s
failures_run s ((now, removes) ∷ times) = failures_run (record_pair_failure removes s now).1 times

-- How many failures the guard has counted for the PIN.
abbrev pub count_of : PairingGuard → List ℕ → ℕ
count_of g pin = if same_pin g.current_pin pin then g.failures else 0

-- The file is as it was, and so many failures are counted.
pub record Counted (file : PinFile) (pin : List ℕ) (n : ℕ) (s : PairState) : Type 0 where
  pub same_file : s.file ≡ file
  pub failures_eq : count_of s.guard pin ≡ n

-- After one failure of the PIN of the file.
abbrev After : PairState → List ℕ → ℕ → Bool × PairState → Type 0
After s pin n (closed, s') =
    ((n < 5) × (closed ≡ false) × Counted s.file pin n s')
    ⊎ ((5 ≤ n) × (closed ≡ true) × (s'.file ≡ not_found))

-- After `n` failures: below the limit they are counted, from there on the file is gone.
abbrev pub Limited : PinFile → List ℕ → ℕ → PairState → Type 0
Limited file pin n s =
    ((n < max_pin_failures) × Counted file pin n s)
    ⊎ ((max_pin_failures ≤ n) × (s.file ≡ not_found))

-- The file holds this PIN at the time, and can be removed.
abbrev pub IsTried : PinFile → List ℕ → ℕ × Bool → Type 0
IsTried file pin (now, removes) = (pairing_pin file now ≡ ok (some pin)) × (removes ≡ true)

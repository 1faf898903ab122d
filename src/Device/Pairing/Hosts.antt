-- ===== src/Device/Pairing/Hosts.antt =====
-- apps/sidewired/src/security.rs: the files of the paired hosts. The directory is the list of its
-- files. Writing a file is taken to succeed here: Commit says what follows where it does not.
use side_wire_kernel_su.Base.{
  ℕ, ◌/◌, ◌%◌, ◌≡◌, ◌≢◌, ap, ◌∙◌, ◌||◌, Option, none, some, List, [], ◌∷◌, ◌++◌, Result, ok, err,
  ◌==◌, if◌then◌else◌, bytes_eq, bytes_eq_refl, length, All, arith, branch_intro,
}
use side_wire_kernel_su.Base.Bytes.{IsByte}
use side_wire_kernel_su.Text.Hex.{to_hex, hex_digit}
use side_wire_kernel_su.Text.Lines.{
  lines, strip_prefix, find_prefix, lines-line, strip_prefix-append,
}
use side_wire_kernel_su.Text.Ids.{id_to_hex, key_to_hex, key_from_hex, key_from_hex-key_to_hex}

abbrev pub Files : Type 0
Files = List (List ℕ × List ℕ)

abbrev pub find_file : List ℕ → Files → Option (List ℕ)
find_file path [] = none
find_file path ((p, text) ∷ more) = if bytes_eq p path then some text else find_file path more

abbrev pub write_file : List ℕ → List ℕ → Files → Files
write_file path text files = (path, text) ∷ files

abbrev pub name_key : List ℕ
name_key = b'n' ∷ b'a' ∷ b'm' ∷ b'e' ∷ b'=' ∷ []

abbrev pub secret_key : List ℕ
secret_key = b's' ∷ b'e' ∷ b'c' ∷ b'r' ∷ b'e' ∷ b't' ∷ b'=' ∷ []

-- `{}.pair`, in the directory
unfoldable pub paired_path : List ℕ → List ℕ
paired_path host_id = id_to_hex host_id ++ (b'.' ∷ b'p' ∷ b'a' ∷ b'i' ∷ b'r' ∷ [])

abbrev pub safe_name : List ℕ → List ℕ
safe_name [] = []
safe_name (c ∷ cs) = let rest = safe_name cs in if c == 13 || c == 10 then rest else c ∷ rest

unfoldable pub host_text : List ℕ → List ℕ → List ℕ
host_text host_name secret =
    (name_key ++ safe_name host_name) ++ (10 ∷ ((secret_key ++ key_to_hex secret) ++ (10 ∷ [])))

unfoldable pub store_paired_host : Files → List ℕ → List ℕ → List ℕ → Files
unfolding paired_path host_text
store_paired_host pairs host_id host_name secret =
    write_file (paired_path host_id) (host_text host_name secret) pairs

pub data KeyError : Type 0 where
  invalid_key : KeyError

-- `secret.map(key_from_hex).transpose()`
abbrev pub checked_key : Option (List ℕ) → Result KeyError (Option (List ℕ))
checked_key none = err invalid_key
checked_key (some key) = ok (some key)

abbrev pub secret_of : Option (List ℕ) → Result KeyError (Option (List ℕ))
secret_of none = ok none
secret_of (some value) = checked_key (key_from_hex value)

abbrev pub text_secret : Option (List ℕ) → Result KeyError (Option (List ℕ))
text_secret none = ok none
text_secret (some text) = secret_of (find_prefix secret_key (lines text))

-- Without a directory no host is paired.
unfoldable pub paired_host_secret : Option Files → List ℕ → Result KeyError (Option (List ℕ))
unfolding paired_path
paired_host_secret none host_id = ok none
paired_host_secret (some pairs) host_id = text_secret (find_file (paired_path host_id) pairs)

-- A character that breaks no line.
abbrev IsPlain : ℕ → Type 0
IsPlain c = (c ≢ 10) × (c ≢ 13)

IsPlain-append :
    (front back : List ℕ) → All IsPlain front → All IsPlain back → All IsPlain (front ++ back)
IsPlain-append [] back h k = k
IsPlain-append (c ∷ cs) back (h, hs) k = (h, IsPlain-append cs back hs k)

safe_name-IsPlain : (name : List ℕ) → All IsPlain (safe_name name)
safe_name-IsPlain [] = tt
safe_name-IsPlain (c ∷ cs) =
    branch_intro (All IsPlain) (c == 13 || c == 10) (λ _. safe_name-IsPlain cs)
      (λ plain. ((λ e. ground arith, λ e. ground arith), safe_name-IsPlain cs))

digit-IsPlain : (n : ℕ) → IsPlain (hex_digit n)
digit-IsPlain n = (λ e. ground arith, λ e. ground arith)

to_hex-IsPlain : (bs : List ℕ) → All IsPlain (to_hex bs)
unfolding to_hex
to_hex-IsPlain [] = tt
to_hex-IsPlain (b ∷ bs) = (digit-IsPlain (b / 16), (digit-IsPlain (b % 16), to_hex-IsPlain bs))

lines-host_text :
    (name secret : List ℕ)
    → lines (host_text name secret)
      ≡ (name_key ++ safe_name name) ∷ (secret_key ++ key_to_hex secret) ∷ lines []
unfolding host_text key_to_hex
lines-host_text name secret =
    let first : All IsPlain (name_key ++ safe_name name) =
      IsPlain-append name_key (safe_name name) (ground arith) (safe_name-IsPlain name) in
    let second : All IsPlain (secret_key ++ to_hex secret) =
      IsPlain-append secret_key (to_hex secret) (ground arith) (to_hex-IsPlain secret) in
    lines-line (name_key ++ safe_name name) _ first
    ∙ ap (λ rest. (name_key ++ safe_name name) ∷ rest)
        (lines-line (secret_key ++ to_hex secret) [] second)

find_prefix-host_text :
    (name secret : List ℕ)
    → find_prefix secret_key (lines (host_text name secret)) ≡ some (key_to_hex secret)
unfolding find_prefix strip_prefix
find_prefix-host_text name secret =
    rw (lines-host_text name secret) (rw (strip_prefix-append secret_key (key_to_hex secret)))

-- Whatever its name says, line breaks included, the host that was stored has the secret that it
-- was stored with.
pub paired_host_secret-store_paired_host :
    (pairs : Files) (host_id host_name secret : List ℕ)
    → length secret ≡ 32
    → All IsByte secret
    → paired_host_secret (some (store_paired_host pairs host_id host_name secret)) host_id
      ≡ ok (some secret)
unfolding paired_host_secret store_paired_host
paired_host_secret-store_paired_host pairs host_id host_name secret len h = rw (
  bytes_eq_refl (paired_path host_id),
  find_prefix-host_text host_name secret,
  key_from_hex-key_to_hex secret len h,
)

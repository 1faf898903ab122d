-- ===== src/Device/Config/Asks.antt =====
-- The lines of the file that ask for the insecure mode (apps/sidewired/src/main.rs).
use side_wire_kernel_su.Base.{
  ℕ, ◌≡◌, refl, sym, ap, ◌∙◌, false, Option, none, some, List, [], ◌∷◌, ◌++◌, ◌≢◌, ◌==◌, All, arith,
  bytes_eq, bytes_eq→eq, branch_intro,
}
use mathlib.Core.Option.{some-injective}
use side_wire_kernel_su.Text.Lines.{trim}
use side_wire_kernel_su.Server.Selector.{ascii_lowercase}
use side_wire_kernel_su.Device.Handshake.{insecure}
use side_wire_kernel_su.Device.Config.{
  Key, security_key, starts_comment, trim_quotes, equals_ignoring_case, key_texts, find_key, key_of,
  split_more, split_once, trimmed_entry, security_of, entry_of,
}

abbrev pub security_text : List ℕ
security_text = b's' ∷ b'e' ∷ b'c' ∷ b'u' ∷ b'r' ∷ b'i' ∷ b't' ∷ b'y' ∷ []

abbrev pub insecure_text : List ℕ
insecure_text = b'i' ∷ b'n' ∷ b's' ∷ b'e' ∷ b'c' ∷ b'u' ∷ b'r' ∷ b'e' ∷ []

-- The line asks for the insecure mode: it is no comment, what stands before its first `=` is
-- `security`, and what stands behind it is `insecure`, in upper or lower case and perhaps in quotes.
pub record AsksInsecure (raw : List ℕ) : Type 0 where
  pub key : List ℕ
  pub value : List ℕ
  pub split : trim raw ≡ key ++ (61 ∷ value)
  pub first_sign : All (λ c. c ≢ 61) key
  pub no_comment : starts_comment (trim raw) ≡ false
  pub key_eq : trim key ≡ security_text
  pub value_eq : ascii_lowercase (trim_quotes (trim value)) ≡ insecure_text

-- Only the word `security` is read as that key.
find_key-security :
    (text : List ℕ) (table : List (List ℕ × Key))
    → All (λ (t, key). key ≡ security_key → t ≡ security_text) table
    → find_key text table ≡ security_key
    → text ≡ security_text
find_key-security text [] all h = cc
find_key-security text ((t, key) ∷ more) (here, all) h =
    branch_intro (λ k. k ≡ security_key → text ≡ security_text) (bytes_eq t text)
      (λ same found. sym (bytes_eq→eq t text same) ∙ here found)
      (λ _ later. find_key-security text more all later) h

key_of-security : (text : List ℕ) → key_of text ≡ security_key → text ≡ security_text
key_of-security text h =
    find_key-security text key_texts
      (
        (λ e. cc),
        (
          (λ e. cc),
          (
            (λ e. cc),
            (
              (λ e. cc),
              ((λ e. cc), ((λ e. refl), ((λ e. cc), ((λ e. cc), ((λ e. cc), ((λ e. cc), tt)))))),
            ),
          ),
        ),
      )
      h

security_of-insecure :
    (value : List ℕ) → security_of value ≡ insecure → ascii_lowercase value ≡ insecure_text
security_of-insecure value h =
    branch_intro (λ m. m ≡ insecure → ascii_lowercase value ≡ insecure_text)
      (equals_ignoring_case value insecure_text)
      (λ same _. bytes_eq→eq (ascii_lowercase value) insecure_text same) (λ _ wrong. cc) h

-- The first `=` splits the text.
abbrev SplitsAt : List ℕ → Option (List ℕ × List ℕ) → Type 0
SplitsAt text none = Unit
SplitsAt text (some (key, value)) = (text ≡ key ++ (61 ∷ value)) × All (λ c. c ≢ 61) key

split_more-SplitsAt :
    (c : ℕ) (cs : List ℕ) (o : Option (List ℕ × List ℕ))
    → (c == 61) ≡ false
    → SplitsAt cs o
    → SplitsAt (c ∷ cs) (split_more c o)
split_more-SplitsAt c cs none ne at = tt
split_more-SplitsAt c cs (some (key, value)) ne (e, all) =
    (ap (λ t. c ∷ t) e, ((λ same. ground arith), all))

split_once-SplitsAt : (text : List ℕ) → SplitsAt text (split_once text)
split_once-SplitsAt [] = tt
split_once-SplitsAt (c ∷ cs) =
    branch_intro (SplitsAt (c ∷ cs)) (c == 61) (λ sign. (ap (λ x. x ∷ cs) (ground arith), tt))
      (λ ne. split_more-SplitsAt c cs (split_once cs) ne (split_once-SplitsAt cs))

trimmed_entry-AsksInsecure :
    (raw value : List ℕ) (o : Option (List ℕ × List ℕ))
    → SplitsAt (trim raw) o
    → starts_comment (trim raw) ≡ false
    → trimmed_entry o ≡ some (security_key, value)
    → security_of value ≡ insecure
    → AsksInsecure raw
trimmed_entry-AsksInsecure raw value none at plain h asks = cc
trimmed_entry-AsksInsecure raw value (some (key, text)) (e, all) plain h asks =
    let pair : ◌≡◌ {A = Key × List ℕ} (key_of (trim key), trim_quotes (trim text))
        (security_key, value) =
      some-injective _ _ h in
    let same : trim_quotes (trim text) ≡ value = ap (λ x. x.1) pair in
    record {
      key = key;
      value = text;
      split = e;
      first_sign = all;
      no_comment = plain;
      key_eq = key_of-security (trim key) (ap (λ x. x.0) pair);
      value_eq = security_of-insecure (trim_quotes (trim text)) (ap security_of same ∙ asks);
    }

pub entry_of-AsksInsecure :
    (raw value : List ℕ)
    → entry_of raw ≡ some (security_key, value)
    → security_of value ≡ insecure
    → AsksInsecure raw
unfolding entry_of
entry_of-AsksInsecure raw value h asks =
    branch_intro (λ o. o ≡ some (security_key, value) → AsksInsecure raw)
      (starts_comment (trim raw)) (λ _ wrong. cc)
      (λ plain found.
        trimmed_entry-AsksInsecure raw value (split_once (trim raw))
          (split_once-SplitsAt (trim raw)) plain found asks)
      h

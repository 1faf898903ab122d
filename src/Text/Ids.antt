-- ===== src/Text/Ids.antt =====
-- crates/sidewire-protocol/src/discovery.rs: `DeviceId`. crates/sidewire-protocol/src/security.rs:
-- the keys as text. A text is counted in characters; the tests on digits admit ASCII only, where a
-- character is a byte.
use side_wire_kernel_su.Base.{
  ℕ, ◌*◌, ◌≡◌, ap, ◌∙◌, subst, true, false, not, ◌||◌, Option, none, some, List, [], ◌∷◌, ◌==◌,
  if◌then◌else◌, length, take, all, All, arith, ==_iff, ==_refl, Bool-cases, inl, inr,
}
use side_wire_kernel_su.Base.Bytes.{IsByte}
use side_wire_kernel_su.Text.Hex.{
  is_ascii_hexdigit, to_hex, from_pairs, lowers, from_pairs-to_hex, to_hex-digits, length-to_hex,
  to_hex-from_pairs, &&-true,
}
use side_wire_kernel_su.Text.Lines.{trim, trim-plain, is_whitespace}

-- A text of `n` bytes in hexadecimal digits, or none.
abbrev pub decode_digits : ℕ → List ℕ → Option (List ℕ)
decode_digits n text =
    if not (length text == 2 * n) || not (all is_ascii_hexdigit text)
    then none
    else some (from_pairs text)

unfoldable pub key_to_hex : List ℕ → List ℕ
key_to_hex key = to_hex key

unfoldable pub key_from_hex : List ℕ → Option (List ℕ)
key_from_hex value = decode_digits 32 (trim value)

-- `DeviceId`: its sixteen bytes.
unfoldable pub id_to_hex : List ℕ → List ℕ
id_to_hex id = to_hex id

unfoldable pub short : List ℕ → List ℕ
unfolding id_to_hex
short id = take 8 (id_to_hex id)

abbrev pub without_dashes : List ℕ → List ℕ
without_dashes [] = []
without_dashes (c ∷ cs) = let rest = without_dashes cs in if c == 45 then rest else c ∷ rest

unfoldable pub parse : List ℕ → Option (List ℕ)
parse value = decode_digits 16 (without_dashes value)

pub decode_digits-to_hex :
    (n : ℕ) (bs : List ℕ) → length bs ≡ n → All IsByte bs → decode_digits n (to_hex bs) ≡ some bs
decode_digits-to_hex n bs len h =
    let size : length (to_hex bs) ≡ 2 * n = omega (arith, length-to_hex bs) in
    rw (size, ==_refl (2 * n), to_hex-digits bs h, from_pairs-to_hex bs h)

decode_digits-eq-some :
    (n : ℕ) (text bs : List ℕ)
    → decode_digits n text ≡ some bs
    → (to_hex bs ≡ lowers text) × All IsByte bs × (length bs ≡ n)
decode_digits-eq-some n text bs h = elim (Bool-cases (length text == 2 * n)) [
  | inl size ↦ elim (Bool-cases (all is_ascii_hexdigit text)) [
    | inl digits ↦
        let h' : some (from_pairs text) ≡ some bs = rw (size, digits) at h in
        let e : from_pairs text ≡ bs = cc in
        subst (λ xs. (to_hex xs ≡ lowers text) × All IsByte xs × (length xs ≡ n)) e
          (to_hex-from_pairs n text ((==_iff (length text) (2 * n)).0 size) digits)
    | inr other ↦ let h' : none ≡ some bs = rw (size, other) at h in cc
  ]
  | inr other ↦ let h' : none ≡ some bs = rw other at h in cc
]

-- However it is split by dashes, the text of an id is read as that id.
pub parse-id_to_hex :
    (text id : List ℕ)
    → All IsByte id
    → length id ≡ 16
    → without_dashes text ≡ id_to_hex id
    → parse text ≡ some id
unfolding parse id_to_hex
parse-id_to_hex text id h len e = ap (decode_digits 16) e ∙ decode_digits-to_hex 16 id len h

-- A text that is read as an id has that id's text, in upper or lower case and with dashes
-- anywhere, and the id has sixteen bytes.
pub parse-eq-some :
    (text id : List ℕ)
    → parse text ≡ some id
    → (id_to_hex id ≡ lowers (without_dashes text)) × All IsByte id × (length id ≡ 16)
unfolding parse id_to_hex
parse-eq-some text id h = decode_digits-eq-some 16 (without_dashes text) id h

digit-whitespace : (c : ℕ) → is_ascii_hexdigit c ≡ true → is_whitespace c ≡ false
digit-whitespace c h = ground arith

digits_plain :
    (text : List ℕ) → all is_ascii_hexdigit text ≡ true → All (λ c. is_whitespace c ≡ false) text
digits_plain [] h = tt
digits_plain (c ∷ cs) h =
    let (hc, hs) = &&-true (is_ascii_hexdigit c) _ h in (digit-whitespace c hc, digits_plain cs hs)

-- A key is read back from its text.
pub key_from_hex-key_to_hex :
    (key : List ℕ) → length key ≡ 32 → All IsByte key → key_from_hex (key_to_hex key) ≡ some key
unfolding key_from_hex key_to_hex
key_from_hex-key_to_hex key len h =
    rw (trim-plain (to_hex key) (digits_plain (to_hex key) (to_hex-digits key h)))
      (decode_digits-to_hex 32 key len h)

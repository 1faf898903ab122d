-- ===== src/Device/Shell.antt =====
-- apps/sidewired/src/main.rs: `shell_quote`, against a reader of shell words, and
-- `sanitize_shell_hostname`.
use side_wire_kernel_su.Base.{
  ℕ, ◌≡◌, refl, Bool, ◌&&◌, ◌||◌, Option, none, some, List, [], ◌∷◌, ◌++◌, leb, ◌==◌, if◌then◌else◌,
  arith,
}
use side_wire_kernel_su.Text.Lines.{trim}

-- The loop over the characters.
abbrev pub quote_chars : List ℕ → List ℕ
quote_chars [] = []
quote_chars (c ∷ cs) =
    let rest = quote_chars cs in if c == 39 then 39 ∷ 92 ∷ 39 ∷ 39 ∷ rest else c ∷ rest

unfoldable pub shell_quote : List ℕ → List ℕ
shell_quote value = 39 ∷ (quote_chars value ++ (39 ∷ []))

unfoldable pub is_name_char : ℕ → Bool
is_name_char c =
    (leb 48 c && leb c 57)
    || (leb 65 c && leb c 90)
    || (leb 97 c && leb c 122)
    || c == 46
    || c == 95
    || c == 45

abbrev pub keep_name : List ℕ → List ℕ
keep_name [] = []
keep_name (c ∷ cs) = let rest = keep_name cs in if is_name_char c then c ∷ rest else rest

abbrev pub non_empty : List ℕ → Option (List ℕ)
non_empty [] = none
non_empty (c ∷ cs) = some (c ∷ cs)

unfoldable pub sanitize_shell_hostname : List ℕ → Option (List ℕ)
sanitize_shell_hostname value = non_empty (keep_name (trim value))

abbrev pub prepend : ℕ → Option (List ℕ) → Option (List ℕ)
prepend c none = none
prepend c (some cs) = some (c ∷ cs)

-- A character that ends a word or is special to the shell outside quotes: white space and
-- | & ; < > ( ) $ ` " * ? [ # ~ = %
abbrev pub is_special : ℕ → Bool
is_special c =
    leb c 32
    || c == 124
    || c == 38
    || c == 59
    || c == 60
    || c == 62
    || c == 40
    || c == 41
    || c == 36
    || c == 96
    || c == 34
    || c == 42
    || c == 63
    || c == 91
    || c == 35
    || c == 126
    || c == 61
    || c == 37

mutual
  -- How a POSIX shell reads a text that is one word: between single quotes every character stands
  -- for itself, a backslash outside them makes the next one literal. `none`: the text is not a word,
  -- or has a character that the shell would interpret.
  pub read_word : List ℕ → Option (List ℕ)
  read_word [] = some []
  read_word (c ∷ cs) =
      if c == 39
      then read_quoted cs
      else if c == 92
      then read_escaped cs
      else if is_special c
      then none
      else prepend c (read_word cs)

  pub read_quoted : List ℕ → Option (List ℕ)
  read_quoted [] = none
  read_quoted (c ∷ cs) =
      let inside = read_quoted cs in if c == 39 then read_word cs else prepend c inside

  pub read_escaped : List ℕ → Option (List ℕ)
  read_escaped [] = none
  read_escaped (c ∷ cs) = prepend c (read_word cs)

read_quoted-quote_chars :
    (value : List ℕ) → read_quoted (quote_chars value ++ (39 ∷ [])) ≡ some value
unfolding read_word read_quoted read_escaped
read_quoted-quote_chars [] = refl
read_quoted-quote_chars (c ∷ cs) = ground (arith, read_quoted-quote_chars cs)

-- Whatever the value holds, quotes, spaces and line breaks included: the shell reads its quoted
-- form as one word, and the word is the value.
pub read_word-shell_quote : (value : List ℕ) → read_word (shell_quote value) ≡ some value
unfolding shell_quote read_word
read_word-shell_quote value = read_quoted-quote_chars value

-- ===== src/Text/Lines.antt =====
-- `str::lines`, `strip_prefix`, `trim` and `find_map` of the standard library, as the program uses
-- them on the files that it keeps.
use side_wire_kernel_su.Base.{
  ℕ, ◌≢◌, ◌≡◌, refl, ap, Bool, false, ◌&&◌, ◌||◌, Option, none, some, List, [], ◌∷◌, ◌++◌, leb,
  ◌==◌, if◌then◌else◌, ◌∙◌, All, arith,
}

abbrev pub add_char : ℕ → List (List ℕ) → List (List ℕ)
add_char c [] = (c ∷ []) ∷ []
add_char c (line ∷ more) = (c ∷ line) ∷ more

abbrev pub starts_newline : List ℕ → Bool
starts_newline [] = false
starts_newline (c ∷ cs) = c == 10

-- A line ends with a newline, or a carriage return and a newline, which do not belong to it.
unfoldable pub lines : List ℕ → List (List ℕ)
lines [] = []
lines (c ∷ cs) =
    let rest = lines cs in
    if c == 10 then [] ∷ rest else if c == 13 && starts_newline cs then rest else add_char c rest

unfoldable pub strip_prefix : List ℕ → List ℕ → Option (List ℕ)
strip_prefix [] text = some text
strip_prefix (p ∷ ps) [] = none
strip_prefix (p ∷ ps) (c ∷ cs) = let rest = strip_prefix ps cs in if p == c then rest else none

abbrev pub or_else {ℓ} : {A : Type ℓ} → Option A → Option A → Option A
or_else none later = later
or_else (some a) later = some a

-- `lines.find_map(|line| line.strip_prefix(prefix))`
unfoldable pub find_prefix : List ℕ → List (List ℕ) → Option (List ℕ)
find_prefix prefix [] = none
find_prefix prefix (line ∷ more) = or_else (strip_prefix prefix line) (find_prefix prefix more)

-- `char::is_whitespace`
abbrev pub is_whitespace : ℕ → Bool
is_whitespace c =
    (leb 9 c && leb c 13)
    || c == 32
    || c == 133
    || c == 160
    || c == 5760
    || (leb 8192 c && leb c 8202)
    || c == 8232
    || c == 8233
    || c == 8239
    || c == 8287
    || c == 12288

unfoldable pub trim_start : List ℕ → List ℕ
trim_start [] = []
trim_start (c ∷ cs) = let rest = trim_start cs in if is_whitespace c then rest else c ∷ cs

abbrev pub keep_char : ℕ → List ℕ → List ℕ
keep_char c [] = if is_whitespace c then [] else c ∷ []
keep_char c (d ∷ ds) = c ∷ d ∷ ds

unfoldable pub trim_end : List ℕ → List ℕ
trim_end [] = []
trim_end (c ∷ cs) = keep_char c (trim_end cs)

unfoldable pub trim : List ℕ → List ℕ
trim text = trim_end (trim_start text)

-- A text without line breaks, and a newline, are one line.
pub lines-line :
    (line rest : List ℕ)
    → All (λ c. (c ≢ 10) × (c ≢ 13)) line
    → lines (line ++ (10 ∷ rest)) ≡ line ∷ lines rest
unfolding lines
lines-line [] rest h = refl
lines-line (c ∷ cs) rest ((no_lf, no_cr), h) = ground (arith, lines-line cs rest h)

pub strip_prefix-append : (prefix text : List ℕ) → strip_prefix prefix (prefix ++ text) ≡ some text
unfolding strip_prefix
strip_prefix-append [] text = refl
strip_prefix-append (p ∷ ps) text = ground (arith, strip_prefix-append ps text)

trim_start-plain :
    (text : List ℕ) → All (λ c. is_whitespace c ≡ false) text → trim_start text ≡ text
unfolding trim_start
trim_start-plain [] h = refl
trim_start-plain (c ∷ cs) (h, hs) = rw h

trim_end-plain : (text : List ℕ) → All (λ c. is_whitespace c ≡ false) text → trim_end text ≡ text
unfolding trim_end
trim_end-plain [] h = refl
trim_end-plain (c ∷ []) (h, hs) = rw h
trim_end-plain (c ∷ d ∷ ds) (h, hs) = rw (trim_end-plain (d ∷ ds) hs)

pub trim-plain : (text : List ℕ) → All (λ c. is_whitespace c ≡ false) text → trim text ≡ text
unfolding trim
trim-plain text h = ap trim_end (trim_start-plain text h) ∙ trim_end-plain text h

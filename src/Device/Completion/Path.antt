-- ===== src/Device/Completion/Path.antt =====
-- apps/sidewired/src/completion.rs: `complete_pty_path` and what it calls. The entries of the
-- directories are arguments, since they come from the file system and its cache. A text is cut at a
-- position in bytes where the code cuts it; the cursor is moved back to the start of its character.
use side_wire_kernel_su.Base.{
  ℕ, ◌+◌, ◌-◌, ◌%◌, ◌^◌, Bool, true, false, not, ◌&&◌, ◌||◌, Option, none, some, List, [], ◌∷◌,
  ◌++◌, leb, ltb, ◌==◌, if◌then◌else◌, bytes_eq, length, take,
}
use side_wire_kernel_su.Text.Lines.{is_whitespace, trim, add_char}
use side_wire_kernel_su.Device.Completion.{
  len_utf8, completion_token_start, command_segment_start, starts_with, is_empty,
  common_completion_prefix,
}
use side_wire_kernel_su.Device.Completion.Boundary.{byte_len}

pub record DirEntry : Type 0 where
  pub name : List ℕ
  pub is_dir : Bool

pub record PtyCompleteResult : Type 0 where
  pub line : List ℕ
  pub cursor : ℕ
  pub candidates : List (List ℕ)
  pub candidate_count : ℕ

abbrev pub max_completion_candidates : ℕ
max_completion_candidates = 256

abbrev pub behind : ℕ → List ℕ × List ℕ → List ℕ × List ℕ
behind c (front, back) = (c ∷ front, back)

-- The characters in front of a position in bytes, and the others.
unfoldable pub cut : ℕ → List ℕ → List ℕ × List ℕ
cut n [] = ([], [])
cut n (c ∷ cs) =
    let rest = cut (n - len_utf8 c) cs in if leb (len_utf8 c) n then behind c rest else ([], c ∷ cs)

-- `split_whitespace().next()` of a text that begins with a word
abbrev pub first_word : List ℕ → List ℕ
first_word [] = []
first_word (c ∷ cs) = let rest = first_word cs in if is_whitespace c then [] else c ∷ rest

-- On the text before the token.
unfoldable pub command_context : List ℕ → Bool × Option (List ℕ)
command_context before =
    let segment = trim (cut (command_segment_start before) before).1 in
    if is_empty segment then (true, none) else (false, some (first_word segment))

-- The order of `String`, by the code points.
abbrev pub text_leb : List ℕ → List ℕ → Bool
text_leb [] b = true
text_leb (x ∷ xs) [] = false
text_leb (x ∷ xs) (y ∷ ys) =
    let rest = text_leb xs ys in if ltb x y then true else if x == y then rest else false

abbrev pub insert_sorted : List ℕ → List (List ℕ) → List (List ℕ)
insert_sorted t [] = t ∷ []
insert_sorted t (u ∷ us) =
    let rest = insert_sorted t us in if text_leb t u then t ∷ u ∷ us else u ∷ rest

-- `sort_unstable`
abbrev pub sort_unstable : List (List ℕ) → List (List ℕ)
sort_unstable [] = []
sort_unstable (t ∷ ts) = insert_sorted t (sort_unstable ts)

abbrev pub dedup_after : List ℕ → List (List ℕ) → List (List ℕ)
dedup_after t [] = []
dedup_after t (u ∷ us) = let rest = dedup_after u us in if bytes_eq t u then rest else u ∷ rest

-- `dedup`: of equal texts that follow each other, the first one.
abbrev pub dedup : List (List ℕ) → List (List ℕ)
dedup [] = []
dedup (t ∷ ts) = t ∷ dedup_after t ts

abbrev pub replacement_of : List ℕ → List (List ℕ) → List ℕ
replacement_of typed [] = typed
replacement_of typed (first ∷ values) =
    let prefix = common_completion_prefix (first ∷ values) in
    if length values == 0 || ltb (byte_len typed) (byte_len prefix) then prefix else typed

-- The line is `before`, `typed` and `after`; `typed` is replaced.
unfoldable pub finish_completion : List ℕ → List ℕ → List ℕ → List (List ℕ) → PtyCompleteResult
finish_completion before typed after candidates =
    let sorted = dedup (sort_unstable candidates) in
    let replacement = replacement_of typed sorted in
    record {
      line = before ++ (replacement ++ after);
      cursor = (byte_len before + byte_len replacement) % 2 ^ 32;
      candidates = take max_completion_candidates sorted;
      candidate_count = length sorted % 2 ^ 32;
    }

-- `split(':')`
abbrev pub split_colon : List ℕ → List (List ℕ)
split_colon [] = [] ∷ []
split_colon (c ∷ cs) = let rest = split_colon cs in if c == 58 then [] ∷ rest else add_char c rest

abbrev pub has_text : List ℕ → List (List ℕ) → Bool
has_text t [] = false
has_text t (u ∷ us) = bytes_eq t u || has_text t us

abbrev pub is_program : List ℕ → List (List ℕ) → DirEntry → Bool
is_program typed seen entry =
    not (entry.is_dir || not (starts_with entry.name typed) || has_text entry.name seen)

-- The candidates of `complete_program`, of which none is taken twice.
abbrev pub programs_of : List ℕ → List DirEntry → List (List ℕ) → List (List ℕ)
programs_of typed [] candidates = candidates
programs_of typed (entry ∷ more) candidates =
    if is_program typed candidates entry
    then programs_of typed more (candidates ++ (entry.name ∷ []))
    else programs_of typed more candidates

abbrev pub entries_or_none : Option (List DirEntry) → List DirEntry
entries_or_none none = []
entries_or_none (some entries) = entries

-- The last slash ends the directory of a path.
abbrev pub add_front : ℕ → List ℕ × List ℕ → List ℕ × List ℕ
add_front c ([], needle) = if c == 47 then (c ∷ [], needle) else ([], c ∷ needle)
add_front c (d ∷ ds, needle) = (c ∷ d ∷ ds, needle)

abbrev pub split_directory : List ℕ → List ℕ × List ℕ
split_directory [] = ([], [])
split_directory (c ∷ cs) = add_front c (split_directory cs)

abbrev pub is_cd : Option (List ℕ) → Bool
is_cd none = false
is_cd (some command) = bytes_eq command (99 ∷ 100 ∷ [])

abbrev pub candidate_of : List ℕ → DirEntry → List ℕ
candidate_of directory entry = directory ++ (entry.name ++ (if entry.is_dir then 47 ∷ [] else []))

abbrev pub paths_of : List ℕ → List ℕ → Bool → List DirEntry → List (List ℕ)
paths_of directory needle directory_only [] = []
paths_of directory needle directory_only (entry ∷ more) =
    let rest = paths_of directory needle directory_only more in
    if not (starts_with entry.name needle) || (directory_only && not entry.is_dir)
    then rest
    else candidate_of directory entry ∷ rest

abbrev pub has_slash : List ℕ → Bool
has_slash [] = false
has_slash (c ∷ cs) = c == 47 || has_slash cs

-- `program_entries` are those of a directory of the path `path`, `entries` those of the directory
-- that a text names for the terminal; `none`: it cannot be read.
module _ (path : List ℕ) (program_entries entries : List ℕ → Option (List DirEntry)) where
  abbrev pub programs_in : List ℕ → List (List ℕ) → List (List ℕ) → List (List ℕ)
  programs_in typed [] candidates = candidates
  programs_in typed (directory ∷ more) candidates =
      if is_empty directory
      then programs_in typed more candidates
      else programs_in typed more
          (programs_of typed (entries_or_none (program_entries directory)) candidates)

  unfoldable pub complete_program : List ℕ → List ℕ → List ℕ → PtyCompleteResult
  complete_program before typed after =
      finish_completion before typed after (programs_in typed (split_colon path) [])

  abbrev pub finish_paths :
      List ℕ → List ℕ → List ℕ → Bool → Option (List DirEntry) → Option PtyCompleteResult
  finish_paths before typed after directory_only none = none
  finish_paths before typed after directory_only (some found) =
      let (directory, needle) = split_directory typed in
      some (finish_completion before typed after (paths_of directory needle directory_only found))

  abbrev pub complete_token :
      List ℕ → List ℕ → List ℕ → Bool × Option (List ℕ) → Option PtyCompleteResult
  complete_token before typed after (command_position, command) =
      if command_position && not (has_slash typed)
      then some (complete_program before typed after)
      else if bytes_eq typed (126 ∷ [])
      then some (finish_completion before typed after ((126 ∷ 47 ∷ []) ∷ []))
      else finish_paths before typed after (is_cd command) (entries (split_directory typed).0)

  unfoldable pub complete_pty_path : List ℕ → ℕ → Option PtyCompleteResult
  complete_pty_path line cursor =
      let (front, after) = cut cursor line in
      let (before, typed) = cut (completion_token_start front) front in
      complete_token before typed after (command_context before)

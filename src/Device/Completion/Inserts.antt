-- ===== src/Device/Completion/Inserts.antt =====
-- What a completion does to the line (apps/sidewired/src/completion.rs).
use side_wire_kernel_su.Base.{
  ℕ, zero, suc, ◌+◌, ◌%◌, ◌^◌, ◌≤◌, ◌≡◌, refl, sym, ap, ◌∙◌, subst, Bool, not, ◌&&◌, ◌||◌, Option,
  none, some, List, [], ◌∷◌, ◌++◌, append_assoc, ◌==◌, if◌then◌else◌, bytes_eq, bytes_eq→eq,
  branch_intro, length, length-take, take, All, All-append, arith,
}
use side_wire_kernel_su.Device.Completion.{completion_token_start, starts_with, is_empty}
use side_wire_kernel_su.Device.Completion.Boundary.{
  byte_len, byte_len-append, completion_starts-Boundary,
}
use side_wire_kernel_su.Device.Completion.Path.{
  DirEntry, PtyCompleteResult, max_completion_candidates, cut, command_context, sort_unstable,
  dedup, finish_completion, split_colon, is_program, programs_of, entries_or_none, add_front,
  split_directory, is_cd, candidate_of, paths_of, has_slash, programs_in, complete_program,
  finish_paths, complete_token, complete_pty_path,
}
use side_wire_kernel_su.Device.Completion.Token.{IsToken}
use side_wire_kernel_su.Device.Completion.Scan.{completion_token_start-TokenAt}
use side_wire_kernel_su.Device.Completion.Cut.{UpTo, cut-whole, cut-UpTo, cut-Boundary, cut-TokenAt}
use side_wire_kernel_su.Device.Completion.Extends.{
  Extends, Extends-starts_with, sort_unstable-Extends, dedup-Extends, replacement_of-Extends,
}

-- The line with something inserted at the cursor, which moves behind it; each candidate begins with
-- what was typed.
pub record Inserted (before typed after : List ℕ) (r : PtyCompleteResult) : Type 0 where
  pub added : List ℕ
  pub line : r.line ≡ (before ++ typed) ++ (added ++ after)
  pub cursor : r.cursor ≡ byte_len ((before ++ typed) ++ added) % 2 ^ 32
  pub extends : All (Extends typed) r.candidates
  pub limited : length r.candidates ≤ max_completion_candidates

take-Extends :
    (n : ℕ) (typed : List ℕ) (ts : List (List ℕ))
    → All (Extends typed) ts
    → All (Extends typed) (take n ts)
take-Extends zero typed ts h = tt
take-Extends (suc n) typed [] h = tt
take-Extends (suc n) typed (t ∷ ts) (h, hs) = (h, take-Extends n typed ts hs)

finish_completion-Inserted :
    (before typed after : List ℕ) (candidates : List (List ℕ))
    → All (Extends typed) candidates
    → Inserted before typed after (finish_completion before typed after candidates)
unfolding finish_completion
finish_completion-Inserted before typed after candidates h =
    let sorted : List (List ℕ) = dedup (sort_unstable candidates) in
    let all : All (Extends typed) sorted =
      dedup-Extends typed (sort_unstable candidates) (sort_unstable-Extends typed candidates h) in
    let (added, e) = replacement_of-Extends typed sorted all in
    record {
      added = added;
      line =
          ap (λ t. before ++ (t ++ after)) e
          ∙ ap (λ t. before ++ t) (append_assoc typed added after)
          ∙ sym (append_assoc before typed (added ++ after));
      cursor =
          ap (λ t. (byte_len before + byte_len t) % 2 ^ 32) e
          ∙ ap (λ n. n % 2 ^ 32)
              (omega (
                arith,
                byte_len-append typed added,
                byte_len-append before typed,
                byte_len-append (before ++ typed) added,
              ));
      extends = take-Extends max_completion_candidates typed sorted all;
      limited = omega (arith, length-take max_completion_candidates sorted);
    }

programs_of-Extends :
    (typed : List ℕ) (found : List DirEntry) (candidates : List (List ℕ))
    → All (Extends typed) candidates
    → All (Extends typed) (programs_of typed found candidates)
programs_of-Extends typed [] candidates h = h
programs_of-Extends typed (entry ∷ more) candidates h =
    branch_intro (All (Extends typed)) (is_program typed candidates entry)
      (λ program. programs_of-Extends typed more (candidates ++ (entry.name ∷ [])) (
        All-append (Extends typed) candidates (entry.name ∷ []) h
          (Extends-starts_with entry.name typed (ground arith), tt)))
      (λ _. programs_of-Extends typed more candidates h)

add_front-whole :
    (c : ℕ) (x : List ℕ × List ℕ) → (add_front c x).0 ++ (add_front c x).1 ≡ c ∷ (x.0 ++ x.1)
add_front-whole c ([], needle) =
    branch_intro (λ (y : List ℕ × List ℕ). y.0 ++ y.1 ≡ c ∷ needle) (c == 47) (λ _. refl)
      (λ _. refl)
add_front-whole c (d ∷ ds, needle) = refl

split_directory-whole :
    (text : List ℕ) → (split_directory text).0 ++ (split_directory text).1 ≡ text
split_directory-whole [] = refl
split_directory-whole (c ∷ cs) =
    add_front-whole c (split_directory cs) ∙ ap (λ t. c ∷ t) (split_directory-whole cs)

candidate_of-Extends :
    (directory needle : List ℕ) (entry : DirEntry)
    → Extends needle entry.name
    → Extends (directory ++ needle) (candidate_of directory entry)
candidate_of-Extends directory needle entry (more, e) =
    let slash : List ℕ = if entry.is_dir then 47 ∷ [] else [] in
    (
      more ++ slash,
      ap (λ t. directory ++ (t ++ slash)) e
          ∙ ap (λ t. directory ++ t) (append_assoc needle more slash)
          ∙ sym (append_assoc directory needle (more ++ slash)),
    )

paths_of-Extends :
    (directory needle : List ℕ) (directory_only : Bool) (found : List DirEntry)
    → All (Extends (directory ++ needle)) (paths_of directory needle directory_only found)
paths_of-Extends directory needle directory_only [] = tt
paths_of-Extends directory needle directory_only (entry ∷ more) =
    let rest = paths_of-Extends directory needle directory_only more in
    branch_intro (All (Extends (directory ++ needle)))
      (not (starts_with entry.name needle) || (directory_only && not entry.is_dir)) (λ _. rest)
      (λ taken. (
        candidate_of-Extends directory needle entry
            (Extends-starts_with entry.name needle (ground arith)),
        rest,
      ))

module _ (path : List ℕ) (program_entries entries : List ℕ → Option (List DirEntry)) where
  programs_in-Extends :
      (typed : List ℕ) (directories candidates : List (List ℕ))
      → All (Extends typed) candidates
      → All (Extends typed) (programs_in path program_entries entries typed directories candidates)
  programs_in-Extends typed [] candidates h = h
  programs_in-Extends typed (directory ∷ more) candidates h =
      branch_intro (All (Extends typed)) (is_empty directory)
        (λ _. programs_in-Extends typed more candidates h)
        (λ _.
          programs_in-Extends typed more _
            (programs_of-Extends typed (entries_or_none (program_entries directory)) candidates h))

  -- What a completion of the line that is cut at these places comes to.
  abbrev Token : List ℕ → List ℕ → List ℕ → Option PtyCompleteResult → Type 0
  Token before typed after none = Unit
  Token before typed after (some r) = Inserted before typed after r

  finish_paths-Token :
      (before typed after : List ℕ) (directory_only : Bool) (o : Option (List DirEntry))
      → Token before typed after
          (finish_paths path program_entries entries before typed after directory_only o)
  finish_paths-Token before typed after directory_only none = tt
  finish_paths-Token before typed after directory_only (some found) =
      let (directory, needle) = split_directory typed in
      finish_completion-Inserted before typed after (paths_of directory needle directory_only found)
        (subst (λ t. All (Extends t) (paths_of directory needle directory_only found))
          (split_directory-whole typed) (paths_of-Extends directory needle directory_only found))

  complete_token-Token :
      (before typed after : List ℕ) (context : Bool × Option (List ℕ))
      → Token before typed after
          (complete_token path program_entries entries before typed after context)
  unfolding complete_program
  complete_token-Token before typed after (command_position, command) =
      branch_intro (Token before typed after) (command_position && not (has_slash typed))
        (λ _.
          finish_completion-Inserted before typed after _
            (programs_in-Extends typed (split_colon path) [] tt))
        (λ _.
          branch_intro (Token before typed after) (bytes_eq typed (126 ∷ []))
            (λ home.
              finish_completion-Inserted before typed after ((126 ∷ 47 ∷ []) ∷ [])
                ((47 ∷ [], ap (λ t. t ++ (47 ∷ [])) (sym (bytes_eq→eq typed (126 ∷ []) home))), tt))
            (λ _. finish_paths-Token before typed after (is_cd command) _))

  -- A line that is cut in three before the cursor, at the token, and behind it.
  abbrev pub Completed : List ℕ → ℕ → Option PtyCompleteResult → Type 0
  Completed line cursor none = Unit
  Completed line cursor (some r) =
      (before : List ℕ) × (typed : List ℕ) × (after : List ℕ) × (line ≡ (before ++ typed) ++ after)
      × UpTo cursor (before ++ typed) after
      × (byte_len before ≡ completion_token_start (before ++ typed))
      × IsToken before typed
      × Inserted before typed after r

  Completed-of_Token :
      (line : List ℕ) (cursor : ℕ) (before typed after : List ℕ) (o : Option PtyCompleteResult)
      → line ≡ (before ++ typed) ++ after
      → UpTo cursor (before ++ typed) after
      → byte_len before ≡ completion_token_start (before ++ typed)
      → IsToken before typed
      → Token before typed after o
      → Completed line cursor o
  Completed-of_Token line cursor before typed after none whole small start token h = tt
  Completed-of_Token line cursor before typed after (some r) whole small start token h =
      (before, typed, after, whole, small, start, token, h)

  -- Whatever line, cursor and directories: a completion inserts text at the cursor, or at the start of
  -- the character that it stands in, and changes nothing else of the line. The new cursor is behind
  -- what was inserted, and there are at most 256 candidates, each of which begins with the token
  -- before the cursor. That token is the text from where one may begin (the start of the line, behind
  -- a separator outside of quotes, or behind a quote there) up to the cursor, in which no separator
  -- stands outside of quotes; it begins where `completion_token_start` says.
  pub complete_pty_path-Completed :
      (line : List ℕ) (cursor : ℕ)
      → Completed line cursor (complete_pty_path path program_entries entries line cursor)
  unfolding complete_pty_path
  complete_pty_path-Completed line cursor =
      let (front, after) = cut cursor line in
      let start : ℕ = completion_token_start front in
      let (before, typed) = cut start front in
      let cut_front : before ++ typed ≡ front = cut-whole start front in
      Completed-of_Token line cursor before typed after _
        (sym (cut-whole cursor line) ∙ ap (λ t. t ++ after) (sym cut_front))
        (subst (λ t. UpTo cursor t after) (sym cut_front) (cut-UpTo cursor line))
        (cut-Boundary front start (completion_starts-Boundary front).0
          ∙ ap completion_token_start (sym cut_front))
        (cut-TokenAt front start (completion_token_start-TokenAt front))
        (complete_token-Token before typed after (command_context before))

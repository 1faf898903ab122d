-- ===== src/Device/Completion.antt =====
-- apps/sidewired/src/completion.rs: where the token before the cursor begins, and the common prefix
-- of the candidates. A text is its characters; positions count bytes, as in Rust.
pub mod Boundary
pub mod Prefix
pub mod Path
pub mod Token
pub mod Scan
pub mod Cut
pub mod Extends
pub mod Inserts
use side_wire_kernel_su.Base.{
  ℕ, zero, suc, ◌+◌, Bool, true, false, not, ◌||◌, Option, none, some, List, [], ◌∷◌, ltb, ◌==◌,
  if◌then◌else◌, length,
}
use side_wire_kernel_su.Text.Lines.{is_whitespace}

-- `len_utf8`
abbrev pub len_utf8 : ℕ → ℕ
len_utf8 c = if ltb c 128 then 1 else if ltb c 2048 then 2 else if ltb c 65536 then 3 else 4

abbrev pub is_quote : ℕ → Bool
is_quote c = c == 39 || c == 34

-- One of | ; & ( )
abbrev pub ends_segment : ℕ → Bool
ends_segment c = c == 124 || c == 59 || c == 38 || c == 40 || c == 41

-- White space, or one of | ; & ( ) < >
abbrev pub ends_token : ℕ → Bool
ends_token c = is_whitespace c || ends_segment c || c == 60 || c == 62

-- The loop of `completion_token_start`, at `index`.
unfoldable pub token_scan : ℕ → ℕ → Option ℕ → List ℕ → ℕ
token_scan index start quote [] = start
token_scan index start (some active) (c ∷ cs) =
    let next = index + len_utf8 c in
    let closed = token_scan next start none cs in
    let inside = token_scan next start (some active) cs in if c == active then closed else inside
token_scan index start none (c ∷ cs) =
    let next = index + len_utf8 c in
    let opened = token_scan next (if start == index then next else start) (some c) cs in
    let after = token_scan next next none cs in
    let on = token_scan next start none cs in
    if is_quote c then opened else if ends_token c then after else on

-- On the characters before the cursor.
unfoldable pub completion_token_start : List ℕ → ℕ
completion_token_start front = token_scan 0 0 none front

-- The loop of `command_segment_start`.
unfoldable pub segment_scan : ℕ → ℕ → Option ℕ → List ℕ → ℕ
segment_scan index start quote [] = start
segment_scan index start (some active) (c ∷ cs) =
    let next = index + len_utf8 c in
    let closed = segment_scan next start none cs in
    let inside = segment_scan next start (some active) cs in if c == active then closed else inside
segment_scan index start none (c ∷ cs) =
    let next = index + len_utf8 c in
    let opened = segment_scan next start (some c) cs in
    let after = segment_scan next next none cs in
    let on = segment_scan next start none cs in
    if is_quote c then opened else if ends_segment c then after else on

unfoldable pub command_segment_start : List ℕ → ℕ
command_segment_start front = segment_scan 0 0 none front

abbrev pub starts_with : List ℕ → List ℕ → Bool
starts_with value [] = true
starts_with [] (p ∷ ps) = false
starts_with (c ∷ cs) (p ∷ ps) = let rest = starts_with cs ps in if c == p then rest else false

-- `pop`
abbrev pub pop : List ℕ → List ℕ
pop [] = []
pop (c ∷ []) = []
pop (c ∷ d ∷ ds) = c ∷ pop (d ∷ ds)

-- The loop of `shrink_common_prefix`: every round pops a character, so as many rounds as there are
-- characters are enough.
unfoldable pub shrink_loop : ℕ → List ℕ → List ℕ → List ℕ
shrink_loop zero prefix value = prefix
shrink_loop (suc fuel) prefix value =
    let rest = shrink_loop fuel (pop prefix) value in
    if starts_with value prefix then prefix else rest

unfoldable pub shrink_common_prefix : List ℕ → List ℕ → List ℕ
shrink_common_prefix prefix value = shrink_loop (length prefix) prefix value

abbrev pub is_empty : List ℕ → Bool
is_empty [] = true
is_empty (c ∷ cs) = false

-- The loop over the other values, which ends early when nothing is left.
unfoldable pub shrink_all : List ℕ → List (List ℕ) → List ℕ
shrink_all prefix [] = prefix
shrink_all prefix (value ∷ values) =
    let prefix' = shrink_common_prefix prefix value in
    let rest = shrink_all prefix' values in if is_empty prefix' then prefix' else rest

unfoldable pub common_completion_prefix : List (List ℕ) → List ℕ
common_completion_prefix [] = []
common_completion_prefix (first ∷ values) = shrink_all first values

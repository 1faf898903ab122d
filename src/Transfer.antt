-- ===== src/Transfer.antt =====
-- apps/sidewire/src/transfer.rs: the paths of a recursive transfer, and the batches in which its
-- directories are made. The parts of a path are those of `std::path::Path::components`, which
-- depend on the platform: a parameter of the model.
pub mod Paths
pub mod Batches
pub mod Jobs
pub mod Counts
pub mod Totals
mod Tests
use side_wire_kernel_su.Base.{
  ℕ, zero, suc, ◌+◌, ◌*◌, ◌-◌, ◌^◌, min, Bool, true, false, not, ◌&&◌, ◌||◌, Option, none, some,
  List, [], ◌∷◌, ◌++◌, Result, ok, err, ◌>>=◌, context, ltb, leb, ◌==◌, if◌then◌else◌, length,
  bytes_eq,
}
use side_wire_kernel_su.Text.Lines.{strip_prefix, add_char}

abbrev pub max_transfer_jobs : ℕ
max_transfer_jobs = 16

-- `jobs.clamp(1, MAX_TRANSFER_JOBS)`
unfoldable pub transfer_jobs : ℕ → ℕ
transfer_jobs jobs =
    if ltb jobs 1 then 1 else if ltb max_transfer_jobs jobs then max_transfer_jobs else jobs

-- `std::path::Component`; `special` stands for the root, a prefix and the parent directory.
pub data Component : Type 0 where
  normal : List ℕ → Component
  cur_dir special : Component

pub data PathError : Type 0 where
  unsupported_component outside unsafe_path : PathError

abbrev pub ends_slash : List ℕ → Bool
ends_slash [] = false
ends_slash (c ∷ []) = c == 47
ends_slash (c ∷ d ∷ ds) = ends_slash (d ∷ ds)

abbrev pub keep_part : ℕ → List ℕ → List ℕ
keep_part c [] = if c == 47 then [] else c ∷ []
keep_part c (d ∷ ds) = c ∷ d ∷ ds

-- `trim_end_matches('/')` and `trim_start_matches('/')`
abbrev pub trim_end_slashes : List ℕ → List ℕ
trim_end_slashes [] = []
trim_end_slashes (c ∷ cs) = keep_part c (trim_end_slashes cs)

abbrev pub trim_start_slashes : List ℕ → List ℕ
trim_start_slashes [] = []
trim_start_slashes (c ∷ cs) = let rest = trim_start_slashes cs in if c == 47 then rest else c ∷ cs

abbrev pub with_slash : List ℕ → List ℕ
with_slash output = if not (ends_slash output) then output ++ (47 ∷ []) else output

unfoldable pub join_parts : List ℕ → List Component → Result PathError (List ℕ)
join_parts output [] = ok output
join_parts output (normal part ∷ more) = join_parts (with_slash output ++ part) more
join_parts output (cur_dir ∷ more) = join_parts output more
join_parts output (special ∷ more) = err unsupported_component

unfoldable pub remote_join : List ℕ → List Component → Result PathError (List ℕ)
remote_join base relative =
    join_parts (if bytes_eq base (47 ∷ []) then 47 ∷ [] else trim_end_slashes base) relative

-- `split('/')`
abbrev pub split_slash : List ℕ → List (List ℕ)
split_slash [] = [] ∷ []
split_slash (c ∷ cs) = let rest = split_slash cs in if c == 47 then [] ∷ rest else add_char c rest

abbrev pub is_skipped : List ℕ → Bool
is_skipped part = bytes_eq part [] || bytes_eq part (46 ∷ [])

abbrev pub first_of : List ℕ → Result PathError (List (List ℕ)) → Result PathError (List (List ℕ))
first_of name (ok names) = ok (name ∷ names)
first_of name (err e) = err e

-- The one name that a part may be.
abbrev pub pushed_name :
    List Component → Result PathError (List (List ℕ)) → Result PathError (List (List ℕ))
pushed_name (normal name ∷ []) rest = first_of name rest
pushed_name _ rest = err unsafe_path

abbrev pub trimmed : Option (List ℕ) → Option (List ℕ)
trimmed none = none
trimmed (some rest) = some (trim_start_slashes rest)

-- What a path is below a root whose last slashes are trimmed.
abbrev pub relative_part : List ℕ → List ℕ → Option (List ℕ)
relative_part [] remote_path = some (trim_start_slashes remote_path)
relative_part (c ∷ root) remote_path = trimmed (strip_prefix (c ∷ root) remote_path)

-- The names that are pushed on the local path. A failure of a later part is reported where the
-- earlier parts were pushed: `output` is dropped then.
module _ (components : List ℕ → List Component) where
  unfoldable pub push_names : List (List ℕ) → Result PathError (List (List ℕ))
  push_names [] = ok []
  push_names (part ∷ more) =
      let rest = push_names more in
      if is_skipped part then rest else pushed_name (components part) rest

  unfoldable pub local_relative : List ℕ → List ℕ → Result PathError (List (List ℕ))
  local_relative remote_root remote_path = do
    relative ← context (relative_part (trim_end_slashes remote_root) remote_path) outside
    push_names (split_slash relative)

-- `ensure_remote_dirs`
abbrev pub max_mkdir_batch_paths : ℕ
max_mkdir_batch_paths = 64

abbrev pub max_mkdir_batch_bytes : ℕ
max_mkdir_batch_bytes = 32 * 1024

-- `saturating_add` of a usize
abbrev pub saturating_add : ℕ → ℕ → ℕ
saturating_add a b = min (a + b) (2 ^ 64 - 1)

abbrev pub more_of : List ℕ → List (List ℕ) × List (List ℕ) → List (List ℕ) × List (List ℕ)
more_of path (batch, left) = (path ∷ batch, left)

-- The inner loop, with `count` paths of `bytes` bytes in the batch: the paths that it adds, and
-- those that it leaves.
unfoldable pub take_batch : ℕ → ℕ → List (List ℕ) → List (List ℕ) × List (List ℕ)
take_batch count bytes [] = ([], [])
take_batch count bytes (path ∷ more) =
    let next = saturating_add (length path) 1 in
    let rest = take_batch (suc count) (saturating_add bytes next) more in
    if leb max_mkdir_batch_paths count
    then ([], path ∷ more)
    else if ltb 0 count && ltb max_mkdir_batch_bytes (saturating_add bytes next)
    then ([], path ∷ more)
    else more_of path rest

-- What `exec_control` gives for a batch: an error, or the exit code, if there is one.
pub data Mkdir : Type 0 where
  request_failed : Mkdir
  exited : Option ℕ → Mkdir

abbrev pub succeeded : Mkdir → Bool
succeeded (exited (some code)) = code == 0
succeeded _ = false

-- The batches that were sent, and whether all succeeded; `none`: the fuel is used up.
abbrev pub Batched : Type 0
Batched = List (List (List ℕ)) × Option Bool

abbrev pub sent_batch : List (List ℕ) → Batched → Batched
sent_batch batch (batches, end) = (batch ∷ batches, end)

-- `run` answers for a batch.
unfoldable pub ensure_dirs : (List (List ℕ) → Mkdir) → ℕ → List (List ℕ) → Batched
ensure_dirs run fuel [] = ([], some true)
ensure_dirs run zero (path ∷ more) = ([], none)
ensure_dirs run (suc fuel) (path ∷ more) =
    let (batch, left) = take_batch 0 0 (path ∷ more) in
    let rest = ensure_dirs run fuel left in
    sent_batch batch (if succeeded (run batch) then rest else ([], some false))

unfoldable pub ensure_remote_dirs : (List (List ℕ) → Mkdir) → List (List ℕ) → Batched
ensure_remote_dirs run paths = ensure_dirs run (length paths) paths

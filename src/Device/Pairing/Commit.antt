-- ===== src/Device/Pairing/Commit.antt =====
-- apps/sidewired/src/security.rs: `handle_pair_connection`. What it reads from its peer are
-- arguments; its first part may run for many peers at a time, and its end, under the commit lock,
-- one after the other.
use side_wire_kernel_su.Base.{
  ℕ, ◌+◌, ◌≤◌, ◌≡◌, refl, ap, ◌∙◌, ◌⊎◌, inl, inr, Bool, true, false, length, not, Option, List, [],
  ◌∷◌, Result, ok, err, ◌>>=◌, ◌>>◌, bail_if, context, if◌then◌else◌, bytes_eq, branch_intro, arith,
}
use side_wire_kernel_su.Frame.Version.{protocol_compatible, negotiated_version}
use side_wire_kernel_su.Device.Pairing.Pin.{
  PinFile, not_found, PairError, not_enabled, major_mismatch, exchange_failed, host_changed,
  pin_used, not_stored, remove_file, pairing_pin, same_pin,
}
use side_wire_kernel_su.Device.Pairing.Hosts.{Files, store_paired_host}

pub record PairStart : Type 0 where
  pub host_id : List ℕ
  pub protocol_version : ℕ
  pub spake_message : List ℕ

pub record PairCommit : Type 0 where
  pub host_id : List ℕ
  pub host_name : List ℕ
  pub shared_secret : List ℕ

-- The pairing file, and the files of the paired hosts.
pub record PairStore : Type 0 where
  pub file : PinFile
  pub pairs : Files

-- The key exchange (SPAKE2), the Noise handshake with its key, and the record that then holds the
-- commit: the crates yield the commit, or an error.
module _ (exchange : List ℕ → ℕ → PairStart → Option PairCommit) where
  unfoldable pub begin_pairing : PinFile → ℕ → PairStart → Result PairError (List ℕ × PairCommit)
  begin_pairing file now start = do
    found ← pairing_pin file now
    pin ← context found not_enabled
    bail_if (not (protocol_compatible start.protocol_version)) major_mismatch
    protocol ← context (negotiated_version start.protocol_version) major_mismatch
    commit ← context (exchange pin protocol start) exchange_failed
    bail_if (not (bytes_eq commit.host_id start.host_id)) host_changed
    ok (pin, commit)

-- What becomes of the file of the host: it is stored, or it is written and an error follows (its
-- permissions), or it is not written.
pub data Storing : Type 0 where
  stored written_only not_written : Storing

-- The pairing file is removed if that succeeds; a failure is passed over.
abbrev pub store_and_remove :
    PairStore → PairCommit → Storing → Bool → Result PairError (Unit {0}) × PairStore
store_and_remove d c not_written removes = (err not_stored, d)
store_and_remove d c written_only removes = (
  err not_stored,
  record d { pairs = store_paired_host d.pairs c.host_id c.host_name c.shared_secret },
)
store_and_remove d c stored removes = (
  ok tt,
  record {
    file = remove_file removes d.file;
    pairs = store_paired_host d.pairs c.host_id c.host_name c.shared_secret;
  },
)

-- Under `commit_lock`: the PIN is read again, and used up.
abbrev pub commit_found :
    PairStore
    → List ℕ
    → PairCommit
    → Storing
    → Bool
    → Result PairError (Option (List ℕ))
    → Result PairError (Unit {0}) × PairStore
commit_found d pin c storing removes (err e) = (err e, d)
commit_found d pin c storing removes (ok found) =
    if not (same_pin found pin) then (err pin_used, d) else store_and_remove d c storing removes

unfoldable pub commit_pairing :
    PairStore → ℕ → List ℕ → PairCommit → Storing → Bool → Result PairError (Unit {0}) × PairStore
commit_pairing d now pin c storing removes =
    commit_found d pin c storing removes (pairing_pin d.file now)

-- A commit that reaches the lock: when, with which PIN, what, and how the file system answers.
pub record Attempt : Type 0 where
  pub now : ℕ
  pub pin : List ℕ
  pub commit : PairCommit
  pub storing : Storing
  pub removes : Bool

unfoldable pub commits_run : PairStore → List Attempt → PairStore
commits_run d [] = d
commits_run d (a ∷ more) =
    commits_run (commit_pairing d a.now a.pin a.commit a.storing a.removes).1 more

-- Whether the pairing file would stay behind a host's file.
abbrev pub fault : Storing → Bool → ℕ
fault stored true = 0
fault stored false = 1
fault written_only removes = 1
fault not_written removes = 0

abbrev pub faults : List Attempt → ℕ
faults [] = 0
faults (a ∷ more) = fault a.storing a.removes + faults more

-- A commit writes no host's file, or it uses the pairing file up, or it meets a fault.
abbrev CommitDone : PairStore → ℕ → PairStore → Type 0
CommitDone d faulty d' =
    (d' ≡ d) ⊎ ((length d'.pairs ≡ length d.pairs + 1) × ((d'.file ≡ not_found) ⊎ (faulty ≡ 1)))

store_and_remove-CommitDone :
    (d : PairStore) (c : PairCommit) (storing : Storing) (removes : Bool)
    → CommitDone d (fault storing removes) (store_and_remove d c storing removes).1
unfolding store_paired_host
store_and_remove-CommitDone d c not_written removes = inl refl
store_and_remove-CommitDone d c written_only removes = inr (omega arith, inr refl)
store_and_remove-CommitDone d c stored true = inr (omega arith, inl refl)
store_and_remove-CommitDone d c stored false = inr (omega arith, inr refl)

commit_found-CommitDone :
    (d : PairStore) (pin : List ℕ) (c : PairCommit) (storing : Storing) (removes : Bool)
    (r : Result PairError (Option (List ℕ)))
    → CommitDone d (fault storing removes) (commit_found d pin c storing removes r).1
commit_found-CommitDone d pin c storing removes (err e) = inl refl
commit_found-CommitDone d pin c storing removes (ok found) =
    branch_intro
      (λ (x : Result PairError (Unit {0}) × PairStore). CommitDone d (fault storing removes) x.1)
      (not (same_pin found pin)) (λ _. inl refl)
      (λ _. store_and_remove-CommitDone d c storing removes)

-- Without a pairing file nobody is paired.
commit_gone :
    (d : PairStore) (a : Attempt)
    → d.file ≡ not_found
    → commit_pairing d a.now a.pin a.commit a.storing a.removes ≡ (err pin_used, d)
unfolding commit_pairing pairing_pin
commit_gone d a gone =
    ap (λ f. commit_found d a.pin a.commit a.storing a.removes (pairing_pin f a.now)) gone

commits_run-gone :
    (d : PairStore) (attempts : List Attempt) → d.file ≡ not_found → commits_run d attempts ≡ d
unfolding commits_run
commits_run-gone d [] gone = refl
commits_run-gone d (a ∷ more) gone =
    ap (λ x. commits_run x.1 more) (commit_gone d a gone) ∙ commits_run-gone d more gone

commits_run-next :
    (d d' : PairStore) (faulty : ℕ) (more : List Attempt)
    → CommitDone d faulty d'
    → length (commits_run d' more).pairs ≤ length d'.pairs + 1 + faults more
    → length (commits_run d' more).pairs ≤ length d.pairs + 1 + (faulty + faults more)
commits_run-next d d' faulty more (inl same) few = omega (arith, few, ap (λ t. length t.pairs) same)
commits_run-next d d' faulty more (inr (one_more, inr met)) few = omega (arith, few, one_more, met)
commits_run-next d d' faulty more (inr (one_more, inl gone)) few =
    omega (arith, one_more, ap (λ t. length t.pairs) (commits_run-gone d' more gone))

-- A pairing PIN is good for one host: of all the commits that reach the lock on a pairing file,
-- with whatever PINs and at whatever times, one at most has its host's file written, and one more
-- for each commit at which the file system fails so that the pairing file stays: it cannot be
-- removed, or the host's file cannot be given its permissions.
pub commits_run-le :
    (d : PairStore) (attempts : List Attempt)
    → length (commits_run d attempts).pairs ≤ length d.pairs + 1 + faults attempts
unfolding commits_run commit_pairing
commits_run-le d [] = omega arith
commits_run-le d (a ∷ more) =
    let d' : PairStore = (commit_pairing d a.now a.pin a.commit a.storing a.removes).1 in
    commits_run-next d d' (fault a.storing a.removes) more
      (commit_found-CommitDone d a.pin a.commit a.storing a.removes (pairing_pin d.file a.now))
      (commits_run-le d' more)

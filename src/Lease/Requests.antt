-- ===== src/Lease/Requests.antt =====
-- memory/stream_lease.py: `claim`, `renew`, `release` and `status`. A call that raises has not reached
-- `_save`, so it leaves the file as it was.
use agentic_loop_template.Base.{
  Bool, true, false, not, ◌||◌, Option, none, some, if◌then◌else◌, Result, ok, err, ◌>>=◌, ◌>>◌,
  raise_if, List,
}
use agentic_loop_template.Base.Int.{ℤ, eq_ℤ}
use agentic_loop_template.Base.Text.{Text}
use agentic_loop_template.Errors.{ValueError, held_by_live_pid, no_lease, no_live_lease}
use agentic_loop_template.Lease.Liveness.{
  System, LeaseRecord, Entry, lease, null_entry, other_entry, readable, lease_pid, lease_pid_dead,
}
use agentic_loop_template.Lease.Registry.{
  Leases, RegistryFile, registry, load_strict, load_lenient, find, put, remove, norm_name,
  norm_paths, check_live, drop_dead_overlapping, ClaimArgs, new_record, reclaimed,
}

pub data Reply : Type 0 where
  -- `_public(name, rec)`
  granted : Text → LeaseRecord → Reply
  released : Bool → Reply
  snapshot : Leases → Reply

-- The record under a name, if it is an object whose process is not dead.
unfoldable pub live_record : System → Option Entry → Option LeaseRecord
live_record sys none = none
live_record sys (some (lease rec)) = if lease_pid_dead sys (lease rec) then none else some rec
live_record sys (some null_entry) = none
live_record sys (some other_entry) = none

-- `_lease_pid(rec) == os.getpid()`
unfoldable pub held_by_me : System → Entry → Bool
held_by_me sys e = elim (lease_pid e) [ none ↦ false | some pid ↦ eq_ℤ pid sys.getpid ]

-- A reply with the leases to save.
abbrev pub Answer : Type 0
Answer = Result ValueError (Reply × Leases)

unfoldable pub take_slot :
    System → ClaimArgs → Text → List Text → Leases → Option LeaseRecord → Answer
take_slot sys args name paths leases none = do
  kept ← drop_dead_overlapping sys name paths leases
  let rec = new_record sys args paths
  ok (granted name rec, put name (lease rec) kept)
take_slot sys args name paths leases (some existing) = do
  raise_if (not (held_by_me sys (lease existing)))
      (held_by_live_pid name (lease_pid (lease existing)))
  let rec = reclaimed sys args paths existing
  kept ← drop_dead_overlapping sys name paths (put name (lease rec) leases)
  ok (granted name rec, kept)

unfoldable pub claim : System → ClaimArgs → RegistryFile → Answer
claim sys args file = do
  name ← norm_name args.name
  paths ← norm_paths args.owned_paths
  leases ← load_strict file
  check_live sys name paths leases
  take_slot sys args name paths leases (live_record sys (find name leases))

-- `rec["pid"] = my_pid; rec["expires_at"] = ...`
unfoldable pub renewed : System → ℤ → LeaseRecord → LeaseRecord
renewed sys ttl_s rec = record rec { pid = readable sys.getpid; expires_at = sys.iso_after ttl_s }

unfoldable pub renew_entry : System → Text → ℤ → Leases → Option Entry → Answer
renew_entry sys name ttl_s leases (some (lease rec)) = do
  raise_if (lease_pid_dead sys (lease rec)) (no_live_lease name)
  raise_if (not (held_by_me sys (lease rec))) (held_by_live_pid name (lease_pid (lease rec)))
  ok (granted name (renewed sys ttl_s rec), put name (lease (renewed sys ttl_s rec)) leases)
renew_entry sys name ttl_s leases (some null_entry) = err (no_lease name)
renew_entry sys name ttl_s leases (some other_entry) = err (no_lease name)
renew_entry sys name ttl_s leases none = err (no_lease name)

unfoldable pub renew : System → Text → ℤ → RegistryFile → Answer
renew sys raw ttl_s file = do
  name ← norm_name raw
  leases ← load_strict file
  renew_entry sys name ttl_s leases (find name leases)

unfoldable pub release_entry : System → Text → Leases → Entry → Answer
release_entry sys name leases e = do
  raise_if (not (lease_pid_dead sys e || held_by_me sys e)) (held_by_live_pid name (lease_pid e))
  ok (released true, remove name leases)

-- A missing key and a null are the same to `leases.get(name)`; nothing is saved then, and the leases
-- that were read stand for the unchanged file.
unfoldable pub release_found :
    System → Text → Leases → Option Entry → Result ValueError (Reply × Option Leases)
release_found sys name leases none = ok (released false, none)
release_found sys name leases (some null_entry) = ok (released false, none)
release_found sys name leases (some e) =
    release_entry sys name leases e >>= λ a. let (reply, ls) = a in ok (reply, some ls)

unfoldable pub release : System → Text → RegistryFile → Result ValueError (Reply × Option Leases)
release sys raw file = do
  name ← norm_name raw
  leases ← load_strict file
  release_found sys name leases (find name leases)

pub data Request : Type 0 where
  claim_lease : ClaimArgs → Request
  renew_lease : Text → ℤ → Request
  release_lease : Text → Request
  status : Request

-- `_save`, where the call reached it.
unfoldable pub saved : RegistryFile → Answer → Result ValueError Reply × RegistryFile
saved file (ok (reply, leases)) = (ok reply, registry leases)
saved file (err e) = (err e, file)

unfoldable pub saved_if :
    RegistryFile
    → Result ValueError (Reply × Option Leases)
    → Result ValueError Reply × RegistryFile
saved_if file (ok (reply, some leases)) = (ok reply, registry leases)
saved_if file (ok (reply, none)) = (ok reply, file)
saved_if file (err e) = (err e, file)

-- One call of the module, from the file before it to the file after it.
unfoldable pub serve : System → Request → RegistryFile → Result ValueError Reply × RegistryFile
serve sys (claim_lease args) file = saved file (claim sys args file)
serve sys (renew_lease name ttl_s) file = saved file (renew sys name ttl_s file)
serve sys (release_lease name) file = saved_if file (release sys name file)
serve sys status file = (ok (snapshot (load_lenient file)), file)

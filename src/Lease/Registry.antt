-- ===== src/Lease/Registry.antt =====
-- memory/stream_lease.py: the registry file and the operations on it. Each runs under the file lock
-- of memory/agent_lock.py, so it is one step from the file it reads to the file it leaves.
pub mod Entries
pub mod Loops
pub mod Lookup
use agentic_loop_template.Base.{
  Bool, true, false, not, ◌&&◌, ◌||◌, List, [], ◌∷◌, Option, none, some, if◌then◌else◌, Result, ok,
  err, ◌>>=◌, ◌>>◌, raise_if,
}
use agentic_loop_template.Base.Int.{ℤ}
use agentic_loop_template.Base.Text.{Text, is_empty, text_eq, strip}
use agentic_loop_template.Errors.{
  ValueError, overlap, empty_stream_name, no_owned_paths, unreadable_registry,
}
use agentic_loop_template.Streams.Paths.{norm_owned}
use agentic_loop_template.Streams.Plans.{covers_either}
use agentic_loop_template.Lease.Liveness.{
  System, LeaseRecord, Entry, lease, null_entry, other_entry, readable, lease_pid_dead,
  proc_starttime,
}

-- The object "leases", in the order of its keys.
abbrev pub Leases : Type 0
Leases = List (Text × Entry)

-- What `_load` finds. Other top-level keys of the file are kept by every operation and left out.
pub data RegistryFile : Type 0 where
  missing : RegistryFile
  -- an OSError, a blank file, no JSON, or no object with an object "leases"
  unreadable_file : RegistryFile
  registry : Leases → RegistryFile

unfoldable pub load_strict : RegistryFile → Result ValueError Leases
load_strict missing = ok []
load_strict unreadable_file = err unreadable_registry
load_strict (registry leases) = ok leases

unfoldable pub load_lenient : RegistryFile → Leases
load_lenient missing = []
load_lenient unreadable_file = []
load_lenient (registry leases) = leases

unfoldable pub find : Text → Leases → Option Entry
find name [] = none
find name ((n, e) ∷ leases) = if text_eq n name then some e else find name leases

-- `leases[name] = e`
unfoldable pub put : Text → Entry → Leases → Leases
put name e [] = (name, e) ∷ []
put name e ((n, e') ∷ leases) =
    if text_eq n name then (n, e) ∷ leases else (n, e') ∷ put name e leases

-- `del leases[name]`
unfoldable pub remove : Text → Leases → Leases
remove name [] = []
remove name ((n, e) ∷ leases) = if text_eq n name then leases else (n, e) ∷ remove name leases

unfoldable pub norm_name : Text → Result ValueError Text
norm_name name = let n = strip name in if is_empty n then err empty_stream_name else ok n

unfoldable pub norm_each : List Text → Result ValueError (List Text)
norm_each [] = ok []
norm_each (raw ∷ raws) = do p ← norm_owned raw; ps ← norm_each raws; ok (p ∷ ps)

unfoldable pub norm_paths : List Text → Result ValueError (List Text)
norm_paths raws = do out ← norm_each raws; raise_if (is_empty out) no_owned_paths; ok out

-- The first pair of tokens of which one covers the other.
unfoldable pub overlap_with : Text → List Text → Result ValueError (Option (Text × Text))
overlap_with oa [] = ok none
overlap_with oa (ob ∷ obs) =
    let rest = overlap_with oa obs in
    covers_either oa ob >>= λ c. if c then ok (some (oa, ob)) else rest

unfoldable pub or_later :
    Option (Text × Text)
    → Result ValueError (Option (Text × Text))
    → Result ValueError (Option (Text × Text))
or_later none later = later
or_later (some pair) later = ok (some pair)

unfoldable pub overlap_pair : List Text → List Text → Result ValueError (Option (Text × Text))
overlap_pair [] obs = ok none
overlap_pair (oa ∷ oas) obs =
    let rest = overlap_pair oas obs in overlap_with oa obs >>= λ found. or_later found rest

-- `rec.get("owned_paths") or []`
unfoldable pub owned_of : Entry → List Text
owned_of (lease rec) = elim rec.owned_paths [ none ↦ [] | some paths ↦ paths ]
owned_of null_entry = []
owned_of other_entry = []

unfoldable pub is_object : Entry → Bool
is_object (lease rec) = true
is_object null_entry = false
is_object other_entry = false

-- A lease that is not to be taken: an object whose process is not dead.
unfoldable pub is_live : System → Entry → Bool
is_live sys e = is_object e && not (lease_pid_dead sys e)

unfoldable pub raise_overlap : Text → Text → Option (Text × Text) → Result ValueError (Unit {0})
raise_overlap name other none = ok tt
raise_overlap name other (some (oa, ob)) = err (overlap name other oa ob)

-- `claim`'s first loop: no live lease of another stream overlaps.
unfoldable pub check_live : System → Text → List Text → Leases → Result ValueError (Unit {0})
check_live sys name paths [] = ok tt
check_live sys name paths ((other, e) ∷ leases) =
    let rest = check_live sys name paths leases in
    if text_eq other name || not (is_live sys e)
    then rest
    else overlap_pair paths (owned_of e) >>= λ pair. raise_overlap name other pair >> rest

abbrev pub no_pair : Option (Text × Text) → Bool
no_pair none = true
no_pair (some pair) = false

-- The entry stays: it is this stream's, or live, or apart from the paths.
unfoldable pub stays : System → Text → List Text → Text → Entry → Result ValueError Bool
stays sys name paths other e =
    if text_eq other name
    then ok true
    else if not (is_object e)
    then ok false
    else if not (lease_pid_dead sys e)
    then ok true
    else overlap_pair paths (owned_of e) >>= λ pair. ok (no_pair pair)

-- `_drop_dead_overlapping`
unfoldable pub drop_dead_overlapping : System → Text → List Text → Leases → Result ValueError Leases
drop_dead_overlapping sys name paths [] = ok []
drop_dead_overlapping sys name paths ((other, e) ∷ leases) =
    let rest = drop_dead_overlapping sys name paths leases in
    stays sys name paths other e >>= λ keep.
    rest >>= λ ls. ok (if keep then (other, e) ∷ ls else ls)

-- `str(x) if x else None`
nonempty : Option Text → Option Text
nonempty none = none
nonempty (some s) = if is_empty s then none else some s

-- `if x is not None: rec[key] = x`
or_kept : Option Text → Option Text → Option Text
or_kept none old = old
or_kept (some new) old = some new

-- `if starttime: rec["starttime"] = starttime`
with_starttime : System → Option Text → Option Text
with_starttime sys old = or_kept (nonempty (proc_starttime sys sys.getpid)) old

pub record ClaimArgs : Type 0 where
  pub name : Text
  pub owned_paths : List Text
  pub worktree : Option Text
  pub ttl_s : ℤ
  pub branch : Option Text

-- `_new_record`
unfoldable pub new_record : System → ClaimArgs → List Text → LeaseRecord
unfolding nonempty with_starttime or_kept
new_record sys args paths = record {
  owned_paths = some paths;
  worktree = nonempty args.worktree;
  pid = readable sys.getpid;
  claimed_at = sys.iso_now;
  expires_at = sys.iso_after args.ttl_s;
  branch = nonempty args.branch;
  starttime = with_starttime sys none;
}

-- The update of a lease that this process holds already.
unfoldable pub reclaimed : System → ClaimArgs → List Text → LeaseRecord → LeaseRecord
unfolding nonempty with_starttime or_kept
reclaimed sys args paths rec = record {
  owned_paths = some paths;
  worktree = or_kept (nonempty args.worktree) rec.worktree;
  pid = readable sys.getpid;
  claimed_at = rec.claimed_at;
  expires_at = sys.iso_after args.ttl_s;
  branch = or_kept (nonempty args.branch) rec.branch;
  starttime = with_starttime sys rec.starttime;
}

-- ===== src/Lease/Claims.antt =====
-- memory/stream_lease.py: what a call of `claim` that returned gives its caller.
use agentic_loop_template.Base.{◌≡◌, refl, inl, true, List, some, ok}
use agentic_loop_template.Base.Int.{eq_ℤ_iff}
use agentic_loop_template.Base.Text.{Text}
use agentic_loop_template.Lease.Liveness.{System, LeaseRecord, lease, lease_pid}
use agentic_loop_template.Lease.Registry.{
  Leases, RegistryFile, find, put, norm_name, norm_paths, owned_of, ClaimArgs, new_record,
  reclaimed,
}
use agentic_loop_template.Lease.Registry.Lookup.{find-put_self, find-drop_dead}
use agentic_loop_template.Lease.Requests.{Reply, granted, held_by_me, claim}
use agentic_loop_template.Lease.Outcomes.{Granted, fresh, again, claim-Claimed}
use agentic_loop_template.Lease.Exclusive.{owned_of-Granted}

-- The lease that a claim leaves: under the normalised name, held by the calling process, on the normalised paths,
-- and the one that the reply shows.
pub record Holds (sys : System) (args : ClaimArgs) (reply : Reply) (after : Leases) : Type 0 where
  pub name : Text
  pub paths : List Text
  pub rec : LeaseRecord
  pub name_of : norm_name args.name ≡ ok name
  pub paths_of : norm_paths args.owned_paths ≡ ok paths
  pub shown : reply ≡ granted name rec
  pub there : find name after ≡ some (lease rec)
  pub mine : held_by_me sys (lease rec) ≡ true
  pub owns : owned_of (lease rec) ≡ paths

Granted-there :
    (sys : System) (args : ClaimArgs) (name : Text) (paths : List Text) (leases after : Leases)
    (rec : LeaseRecord)
    → Granted sys args name paths leases after rec
    → find name after ≡ some (lease rec)
Granted-there sys args name paths leases after rec (fresh kept _ _ _ is_after) =
    rw is_after (find-put_self name (lease rec) kept)
Granted-there sys args name paths leases after rec (again existing _ _ _ dropped) =
    find-drop_dead sys name paths (put name (lease rec) leases) after name (lease rec) dropped
      (find-put_self name (lease rec) leases) (inl refl)

Granted-mine :
    (sys : System) (args : ClaimArgs) (name : Text) (paths : List Text) (leases after : Leases)
    (rec : LeaseRecord)
    → Granted sys args name paths leases after rec
    → held_by_me sys (lease rec) ≡ true
unfolding held_by_me lease_pid new_record reclaimed
Granted-mine sys args name paths leases after rec (fresh kept _ _ is_rec _) =
    rw is_rec ((eq_ℤ_iff sys.getpid sys.getpid).1 refl)
Granted-mine sys args name paths leases after rec (again existing _ _ is_rec _) =
    rw is_rec ((eq_ℤ_iff sys.getpid sys.getpid).1 refl)

-- A claim that returns leaves the caller's lease in the registry: under its normalised name, held by its process, on its
-- normalised paths, as the reply shows it.
pub claim-Holds :
    (sys : System) (args : ClaimArgs) (file : RegistryFile) (reply : Reply) (after : Leases)
    → claim sys args file ≡ ok (reply, after)
    → Holds sys args reply after
claim-Holds sys args file reply after h =
    let c = claim-Claimed sys args file reply after h in
    record {
      name = c.name;
      paths = c.paths;
      rec = c.rec;
      name_of = c.name_of;
      paths_of = c.paths_of;
      shown = c.reply_of;
      there = Granted-there sys args c.name c.paths c.leases after c.rec c.slot;
      mine = Granted-mine sys args c.name c.paths c.leases after c.rec c.slot;
      owns = owned_of-Granted c.slot;
    }

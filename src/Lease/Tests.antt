-- ===== src/Lease/Tests.antt =====
-- Calls of the lease registry by two live processes.
mod Dead
use agentic_loop_template.Base.{
  ◌≡◌, ◌≢◌, refl, subst, inl, inr, true, false, [], ◌∷◌, none, some, ok, if◌then◌else◌,
}
use agentic_loop_template.Base.Int.{ℤ, pos, eq_ℤ}
use agentic_loop_template.Base.Text.{
  Text, text, text_eq, text_eq_iff, is_space, strip, rstrip_by, lstrip_by, starts_with,
  ends_with_char,
}
use agentic_loop_template.Streams.Paths.{
  norm_owned, norm_rel, to_slashes, drop_dot_slashes, path_is_owned, owned_by_any, token_owns,
  token_covers, owned_covers,
}
use agentic_loop_template.Streams.Paths.Cover.{IsTidy}
use agentic_loop_template.Streams.Plans.{covers_either}
use agentic_loop_template.Streams.Plans.Disjoint.{AllTidy, AllTidy-one}
use agentic_loop_template.Lease.Liveness.{
  System, signalled, process_lookup_error, LeaseRecord, lease, readable, pid_dead, proc_starttime,
  lease_pid, lease_pid_dead,
}
use agentic_loop_template.Lease.Registry.{
  RegistryFile, missing, registry, load_strict, load_lenient, find, put, norm_name, norm_each,
  norm_paths, owned_of, is_live, ClaimArgs, new_record, overlap_with, or_later, overlap_pair,
  is_object, raise_overlap, check_live, stays, drop_dead_overlapping,
}
use agentic_loop_template.Lease.Claims.{Holds, claim-Holds}
use agentic_loop_template.Lease.Requests.{
  Reply, granted, claim_lease, release_lease, live_record, held_by_me, take_slot, claim, saved,
  serve,
}
use agentic_loop_template.Lease.Exclusive.{IsExclusive, serve-IsExclusive}
use agentic_loop_template.Lease.Holders.{HeldElsewhere, serve-keeps_held}
use agentic_loop_template.Lease.Reach.{
  Reach, start, call, Reach-IsExclusive, reachable_leases-disjoint,
}

-- The machine as a process sees it: the processes 10 and 20 are alive.
abbrev machine : ℤ → System
machine me = record {
  getpid = me;
  kill = λ pid.
      if eq_ℤ pid (pos 10)
      then signalled
      else if eq_ℤ pid (pos 20)
      then signalled
      else process_lookup_error;
  proc_stat = λ pid. none;
  is_nt = false;
  iso_now = text "now";
  iso_after = λ ttl. text "later";
}

abbrev wanted : Text → Text → ClaimArgs
wanted name path = record {
  name = name;
  owned_paths = path ∷ [];
  worktree = none;
  ttl_s = pos 60;
  branch = none;
}

-- The leases that the two processes hold.
abbrev held : Text → ℤ → LeaseRecord
held path pid = record {
  owned_paths = some (path ∷ []);
  worktree = none;
  pid = readable pid;
  claimed_at = text "now";
  expires_at = text "later";
  branch = none;
  starttime = none;
}

abbrev one_lease : RegistryFile
one_lease = registry ((text "a", lease (held (text "mem/") (pos 10))) ∷ [])

abbrev two_leases : RegistryFile
two_leases = registry (
    (text "a", lease (held (text "mem/") (pos 10)))
    ∷ (text "b", lease (held (text "docs/") (pos 20)))
    ∷ [])

first_claim :
    (serve (machine (pos 10)) (claim_lease (wanted (text "a") (text "mem/"))) missing).1 ≡ one_lease
unfolding text_eq is_space strip rstrip_by lstrip_by norm_owned to_slashes pid_dead proc_starttime
    lease_pid lease_pid_dead load_strict find put norm_name norm_each norm_paths owned_of is_live
    new_record check_live drop_dead_overlapping live_record take_slot claim saved serve
first_claim = refl

second_claim :
    (serve (machine (pos 20)) (claim_lease (wanted (text "b") (text "docs/"))) one_lease).1
    ≡ two_leases
unfolding text_eq is_space strip rstrip_by lstrip_by starts_with ends_with_char norm_owned
    to_slashes token_covers owned_covers covers_either pid_dead proc_starttime lease_pid
    lease_pid_dead load_strict find put norm_name norm_each norm_paths owned_of is_live new_record
    overlap_with or_later overlap_pair is_object raise_overlap check_live stays
    drop_dead_overlapping live_record take_slot claim saved serve
second_claim = refl

reach_one : Reach one_lease
reach_one =
    subst Reach first_claim
      (call (machine (pos 10)) (claim_lease (wanted (text "a") (text "mem/"))) start)

reach_two : Reach two_leases
reach_two =
    subst Reach second_claim
      (call (machine (pos 20)) (claim_lease (wanted (text "b") (text "docs/"))) reach_one)

a_is_not_b : text "a" ≢ text "b"
unfolding text_eq
a_is_not_b e =
    let same : text_eq (text "a") (text "b") ≡ true = (text_eq_iff (text "a") (text "b")).1 e in
    cc same

mem_tidy : AllTidy (owned_of (lease (held (text "mem/") (pos 10))))
unfolding owned_of norm_owned to_slashes strip is_space rstrip_by lstrip_by
mem_tidy = AllTidy-one (text "mem/") refl (inr refl)

docs_tidy : AllTidy (owned_of (lease (held (text "docs/") (pos 20))))
unfolding owned_of norm_owned to_slashes strip is_space rstrip_by lstrip_by
docs_tidy = AllTidy-one (text "docs/") refl (inr refl)

found_a : find (text "a") (load_lenient two_leases) ≡ some (lease (held (text "mem/") (pos 10)))
unfolding find load_lenient text_eq
found_a = refl

found_b : find (text "b") (load_lenient two_leases) ≡ some (lease (held (text "docs/") (pos 20)))
unfolding find load_lenient text_eq
found_b = refl

a_owns_file :
    path_is_owned (text "mem/x.py") (owned_of (lease (held (text "mem/") (pos 10)))) ≡ ok true
unfolding path_is_owned owned_by_any token_owns norm_rel drop_dot_slashes owned_of norm_owned
    to_slashes strip is_space rstrip_by lstrip_by starts_with ends_with_char text_eq
a_owns_file = refl

reachable_leases-disjoint_example :
    path_is_owned (text "mem/x.py") (owned_of (lease (held (text "docs/") (pos 20)))) ≢ ok true
reachable_leases-disjoint_example =
    reachable_leases-disjoint two_leases reach_two (text "a") (text "b")
      (lease (held (text "mem/") (pos 10))) (lease (held (text "docs/") (pos 20))) found_a found_b
      a_is_not_b mem_tidy docs_tidy (text "mem/x.py") a_owns_file

serve-IsExclusive_example : IsExclusive (
    load_lenient
      (serve (machine (pos 20)) (claim_lease (wanted (text "b") (text "docs/"))) one_lease).1)
serve-IsExclusive_example =
    serve-IsExclusive (machine (pos 20)) (claim_lease (wanted (text "b") (text "docs/"))) one_lease
      (Reach-IsExclusive reach_one)

a_is_held :
    HeldElsewhere
      (machine (pos 20))
      (text "a")
      (lease (held (text "mem/") (pos 10)))
      (load_lenient one_lease)
unfolding find load_lenient text_eq is_live is_object lease_pid lease_pid_dead pid_dead held_by_me
a_is_held = record { there = refl; live = refl; not_mine = refl }

serve-keeps_held_example :
    find (text "a") (load_lenient (serve (machine (pos 20)) (release_lease (text "a")) one_lease).1)
    ≡ some (lease (held (text "mem/") (pos 10)))
serve-keeps_held_example =
    serve-keeps_held (machine (pos 20)) (release_lease (text "a")) one_lease (text "a")
      (lease (held (text "mem/") (pos 10))) a_is_held

claim_returns :
    claim (machine (pos 20)) (wanted (text "b") (text "docs/")) one_lease
    ≡ ok (
      granted (text "b") (held (text "docs/") (pos 20)),
      (text "a", lease (held (text "mem/") (pos 10)))
          ∷ (text "b", lease (held (text "docs/") (pos 20)))
          ∷ [],
    )
unfolding text_eq is_space strip rstrip_by lstrip_by starts_with ends_with_char norm_owned
    to_slashes token_covers owned_covers covers_either pid_dead proc_starttime lease_pid
    lease_pid_dead load_strict find put norm_name norm_each norm_paths owned_of is_live new_record
    overlap_with or_later overlap_pair is_object raise_overlap check_live stays
    drop_dead_overlapping live_record take_slot claim
claim_returns = refl

claim-Holds_example :
    Holds
      (machine (pos 20))
      (wanted (text "b") (text "docs/"))
      (granted (text "b") (held (text "docs/") (pos 20)))
      ((text "a", lease (held (text "mem/") (pos 10)))
        ∷ (text "b", lease (held (text "docs/") (pos 20)))
        ∷ [])
claim-Holds_example =
    claim-Holds (machine (pos 20)) (wanted (text "b") (text "docs/")) one_lease
      (granted (text "b") (held (text "docs/") (pos 20)))
      ((text "a", lease (held (text "mem/") (pos 10)))
        ∷ (text "b", lease (held (text "docs/") (pos 20)))
        ∷ [])
      claim_returns

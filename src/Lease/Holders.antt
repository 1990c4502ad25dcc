-- ===== src/Lease/Holders.antt =====
-- memory/stream_lease.py: a lease that another live process holds is not taken, changed or removed.
use agentic_loop_template.Base.{
  ◌≡◌, ◌≢◌, refl, ap, ◌∙◌, inr, true, false, ◌||◌, List, Option, none, some, arith, ok,
}
use agentic_loop_template.Base.Int.{ℤ}
use agentic_loop_template.Base.Text.{Text}
use agentic_loop_template.Lease.Liveness.{
  System, LeaseRecord, Entry, lease, null_entry, other_entry, lease_pid_dead,
}
use agentic_loop_template.Lease.Registry.{
  Leases, RegistryFile, find, put, remove, load_lenient, is_live, is_object, ClaimArgs,
}
use agentic_loop_template.Lease.Registry.Lookup.{find-put_ne, find-remove_ne, find-drop_dead}
use agentic_loop_template.Lease.Requests.{
  Reply, live_record, held_by_me, claim, renew, renewed, release, Request, claim_lease, renew_lease,
  release_lease, status, serve,
}
use agentic_loop_template.Lease.Outcomes.{
  Granted, fresh, again, claim-Claimed, load-same, renew-Renewed, Released, nothing_there, removed,
  release-Released, saved-after, saved_if-after,
}

-- A lease that another process holds and that is not to be taken.
pub record HeldElsewhere (sys : System) (m : Text) (e : Entry) (leases : Leases) : Type 0 where
  pub there : find m leases ≡ some e
  pub live : is_live sys e ≡ true
  pub not_mine : held_by_me sys e ≡ false

live_record-live :
    (sys : System) (e : Entry)
    → is_live sys e ≡ true
    → (rec : LeaseRecord) × (live_record sys (some e) ≡ some rec) × (e ≡ lease rec)
unfolding is_live live_record is_object
live_record-live sys (lease rec) h = (rec, ground arith, refl)
live_record-live sys null_entry h = cc
live_record-live sys other_entry h = cc

-- The slot that `claim` writes is not one that another process holds.
Granted-name :
    {sys : System} {args : ClaimArgs} {name : Text} {paths : List Text} {leases after : Leases}
    {rec : LeaseRecord} (m : Text) (e : Entry)
    → Granted sys args name paths leases after rec
    → HeldElsewhere sys m e leases
    → m ≢ name
Granted-name {sys} {leases} m e (fresh kept none_live _ _ _) h same =
    let (r, live_there, _) = live_record-live sys e h.live in
    let none_m : live_record sys (find m leases) ≡ none = rw same none_live in
    cc (none_m, ap (live_record sys) h.there, live_there)
Granted-name {sys} {leases} m e (again existing found mine _ _) h same =
    let (r, live_there, is_lease) = live_record-live sys e h.live in
    let found_m : live_record sys (find m leases) ≡ some existing = rw same found in
    let same_rec : existing ≡ r = cc (found_m, ap (live_record sys) h.there, live_there) in
    let mine_e : held_by_me sys e ≡ true = rw (is_lease, ← same_rec) mine in cc (mine_e, h.not_mine)

Granted-keeps_held :
    (sys : System) (args : ClaimArgs) (name : Text) (paths : List Text) (leases after : Leases)
    (rec : LeaseRecord) (m : Text) (e : Entry)
    → Granted sys args name paths leases after rec
    → HeldElsewhere sys m e leases
    → m ≢ name
    → find m after ≡ some e
Granted-keeps_held sys args name paths leases after rec m e (fresh kept _ dropped _ is_after) h ne =
    rw (is_after, find-put_ne name m (lease rec) kept ne)
      (find-drop_dead sys name paths leases kept m e dropped h.there (inr h.live))
Granted-keeps_held sys args name paths leases after rec m e (again existing _ _ _ dropped) h ne =
    find-drop_dead sys name paths (put name (lease rec) leases) after m e dropped
      (find-put_ne name m (lease rec) leases ne ∙ h.there) (inr h.live)

claim-keeps_held :
    (sys : System) (args : ClaimArgs) (file : RegistryFile) (reply : Reply) (after : Leases)
    (m : Text) (e : Entry)
    → claim sys args file ≡ ok (reply, after)
    → HeldElsewhere sys m e (load_lenient file)
    → find m after ≡ some e
claim-keeps_held sys args file reply after m e claimed h =
    let c = claim-Claimed sys args file reply after claimed in
    let h' : HeldElsewhere sys m e c.leases = rw (load-same file c.leases c.loaded) at h in
    Granted-keeps_held sys args c.name c.paths c.leases after c.rec m e c.slot h'
      (Granted-name m e c.slot h')

find-renewed :
    (sys : System) (name m : Text) (ttl_s : ℤ) (rec : LeaseRecord) (leases : Leases) (e : Entry)
    → find name leases ≡ some (lease rec)
    → held_by_me sys (lease rec) ≡ true
    → HeldElsewhere sys m e leases
    → find m (put name (lease (renewed sys ttl_s rec)) leases) ≡ some e
find-renewed sys name m ttl_s rec leases e there mine h =
    find-put_ne name m _ leases other ∙ h.there
  where
    other : m ≢ name
    other same =
        let there_m : find m leases ≡ some (lease rec) = rw same there in
        let is_e : e ≡ lease rec = cc (there_m, h.there) in
        let mine_e : held_by_me sys e ≡ true = rw is_e mine in cc (mine_e, h.not_mine)

live_not_released :
    (sys : System) (e : Entry)
    → is_live sys e ≡ true
    → held_by_me sys e ≡ false
    → (lease_pid_dead sys e || held_by_me sys e) ≢ true
unfolding is_live
live_not_released sys e live not_mine may = ground arith

find-Released :
    (sys : System) (file : RegistryFile) (name m : Text) (a : Reply × Option Leases)
    (after : Leases) (e : Entry)
    → Released sys file name a
    → a.1 ≡ some after
    → HeldElsewhere sys m e (load_lenient file)
    → find m after ≡ some e
find-Released sys file name m a after e (nothing_there found there why) is_after h = cc is_after
find-Released sys file name m a after e (removed gone there may) is_after h =
    let is_removed : remove name (load_lenient file) ≡ after = cc is_after in
    rw (← is_removed) (find-remove_ne name m (load_lenient file) other ∙ h.there)
  where
    other : m ≢ name
    other same =
        let there_m : find m (load_lenient file) ≡ some gone = rw same there in
        let is_gone : e ≡ gone = cc (there_m, h.there) in
        let may_e : (lease_pid_dead sys e || held_by_me sys e) ≡ true = rw is_gone may in
        live_not_released sys e h.live h.not_mine may_e

-- A lease that a live process other than the caller holds is there unchanged after every call,
-- whether the call returns or raises.
pub serve-keeps_held :
    (sys : System) (req : Request) (file : RegistryFile) (m : Text) (e : Entry)
    → HeldElsewhere sys m e (load_lenient file)
    → find m (load_lenient (serve sys req file).1) ≡ some e
unfolding serve
serve-keeps_held sys (claim_lease args) file m e h =
    saved-after (λ ls. find m ls ≡ some e) file h.there (claim sys args file)
      λ reply after claimed. claim-keeps_held sys args file reply after m e claimed h
serve-keeps_held sys (renew_lease raw ttl_s) file m e h =
    saved-after (λ ls. find m ls ≡ some e) file h.there (renew sys raw ttl_s file)
      λ reply after done.
        let r = renew-Renewed sys raw ttl_s file reply after done in
        rw (r.after_of)
          (find-renewed sys r.name m ttl_s r.rec (load_lenient file) e r.there r.mine h)
serve-keeps_held sys (release_lease raw) file m e h =
    saved_if-after (λ ls. find m ls ≡ some e) file h.there (release sys raw file)
      λ reply after done.
        let (name, _, gone) = release-Released sys raw file (reply, some after) done in
        find-Released sys file name m (reply, some after) after e gone refl h
serve-keeps_held sys status file m e h = h.there

-- ===== src/Lease/Outcomes.antt =====
-- memory/stream_lease.py: what `claim`, `renew` and `release` have done once they return.
use agentic_loop_template.Base.{
  ◌≡◌, refl, sym, ap, ◌∙◌, subst, ◌⊎◌, inl, inr, true, false, not, ◌||◌, List, Option, none, some,
  arith, Bool-cases, Result, ok, err, >>=-eq-ok, >>-eq-ok, raise_if-eq-ok, ok-eq-pair, ok-eq-ok,
}
use agentic_loop_template.Base.Int.{ℤ}
use agentic_loop_template.Base.Text.{Text}
use agentic_loop_template.Errors.{ValueError}
use agentic_loop_template.Lease.Liveness.{
  System, LeaseRecord, Entry, lease, null_entry, other_entry, lease_pid_dead,
}
use agentic_loop_template.Lease.Registry.{
  Leases, RegistryFile, missing, unreadable_file, registry, find, put, remove, norm_name,
  norm_paths, load_strict, load_lenient, check_live, drop_dead_overlapping, ClaimArgs, new_record,
  reclaimed,
}
use agentic_loop_template.Lease.Requests.{
  Reply, granted, released, live_record, held_by_me, take_slot, claim, renew, renew_entry, renewed,
  release, release_found, release_entry, Answer, saved, saved_if,
}

-- A file that was loaded holds those leases, whichever way it is loaded.
pub load-same :
    (file : RegistryFile) (leases : Leases)
    → load_strict file ≡ ok leases
    → load_lenient file ≡ leases
unfolding load_strict load_lenient
load-same missing leases h = cc h
load-same unreadable_file leases h = cc h
load-same (registry ls) leases h = cc h

-- The slot that `claim` writes.
pub data Granted (sys : System) (args : ClaimArgs) (name : Text) (paths : List Text)
    (leases after : Leases) (rec : LeaseRecord) : Type 0 where
  fresh :
      (kept : Leases)
      → live_record sys (find name leases) ≡ none
      → drop_dead_overlapping sys name paths leases ≡ ok kept
      → rec ≡ new_record sys args paths
      → after ≡ put name (lease rec) kept
      → Granted sys args name paths leases after rec
  again :
      (existing : LeaseRecord)
      → live_record sys (find name leases) ≡ some existing
      → held_by_me sys (lease existing) ≡ true
      → rec ≡ reclaimed sys args paths existing
      → drop_dead_overlapping sys name paths (put name (lease rec) leases) ≡ ok after
      → Granted sys args name paths leases after rec

-- What a call of `claim` that returned has done.
pub record Claimed (sys : System) (args : ClaimArgs) (file : RegistryFile) (reply : Reply)
    (after : Leases) : Type 0 where
  pub name : Text
  pub paths : List Text
  pub leases : Leases
  pub rec : LeaseRecord
  pub name_of : norm_name args.name ≡ ok name
  pub paths_of : norm_paths args.owned_paths ≡ ok paths
  pub loaded : load_strict file ≡ ok leases
  pub checked : check_live sys name paths leases ≡ ok tt
  pub slot : Granted sys args name paths leases after rec
  pub reply_of : reply ≡ granted name rec

take_slot-Granted :
    (sys : System) (args : ClaimArgs) (name : Text) (paths : List Text) (leases after : Leases)
    (found : Option LeaseRecord) (reply : Reply)
    → live_record sys (find name leases) ≡ found
    → take_slot sys args name paths leases found ≡ ok (reply, after)
    → (rec : LeaseRecord) × Granted sys args name paths leases after rec
      × (reply ≡ granted name rec)
unfolding take_slot
take_slot-Granted sys args name paths leases after none reply e h =
    let (kept, ek, h') = >>=-eq-ok (drop_dead_overlapping sys name paths leases) _ h in
    let (replied, saved) = ok-eq-pair h' in
    (new_record sys args paths, fresh kept e ek refl saved, replied)
take_slot-Granted sys args name paths leases after (some existing) reply e h =
    let (mine, h') = raise_if-eq-ok (not (held_by_me sys (lease existing))) _ _ h in
    let (kept, ek, h'') =
      >>=-eq-ok
        (drop_dead_overlapping sys name paths
          (put name (lease (reclaimed sys args paths existing)) leases))
        _ h' in
    let (replied, saved) = ok-eq-pair h'' in
    (
      reclaimed sys args paths existing,
      again existing e (ground arith) refl (ek ∙ ap ok (sym saved)),
      replied,
    )

pub claim-Claimed :
    (sys : System) (args : ClaimArgs) (file : RegistryFile) (reply : Reply) (after : Leases)
    → claim sys args file ≡ ok (reply, after)
    → Claimed sys args file reply after
unfolding claim
claim-Claimed sys args file reply after h =
    let (name, en, h1) = >>=-eq-ok (norm_name args.name) _ h in
    let (paths, ep, h2) = >>=-eq-ok (norm_paths args.owned_paths) _ h1 in
    let (leases, el, h3) = >>=-eq-ok (load_strict file) _ h2 in
    let (checked, h4) = >>-eq-ok (check_live sys name paths leases) _ h3 in
    let (rec, slot, replied) =
      take_slot-Granted sys args name paths leases after (live_record sys (find name leases)) reply
        refl h4 in
    record {
      name = name;
      paths = paths;
      leases = leases;
      rec = rec;
      name_of = en;
      paths_of = ep;
      loaded = el;
      checked = checked;
      slot = slot;
      reply_of = replied;
    }

-- What `renew` has done when it returned.
pub record Renewed (sys : System) (raw : Text) (ttl_s : ℤ) (file : RegistryFile) (reply : Reply)
    (after : Leases) : Type 0 where
  pub name : Text
  pub rec : LeaseRecord
  pub name_of : norm_name raw ≡ ok name
  pub there : find name (load_lenient file) ≡ some (lease rec)
  pub alive : lease_pid_dead sys (lease rec) ≡ false
  pub mine : held_by_me sys (lease rec) ≡ true
  pub reply_of : reply ≡ granted name (renewed sys ttl_s rec)
  pub after_of : after ≡ put name (lease (renewed sys ttl_s rec)) (load_lenient file)

renew_entry-Renewed :
    (sys : System) (raw name : Text) (ttl_s : ℤ) (file : RegistryFile) (reply : Reply)
    (after : Leases) (found : Option Entry)
    → norm_name raw ≡ ok name
    → find name (load_lenient file) ≡ found
    → renew_entry sys name ttl_s (load_lenient file) found ≡ ok (reply, after)
    → Renewed sys raw ttl_s file reply after
unfolding renew_entry
renew_entry-Renewed sys raw name ttl_s file reply after (some (lease rec)) en ef h =
    let (alive, h1) = raise_if-eq-ok (lease_pid_dead sys (lease rec)) _ _ h in
    let (mine, h2) = raise_if-eq-ok (not (held_by_me sys (lease rec))) _ _ h1 in
    let (replied, saved_as) = ok-eq-pair h2 in
    record {
      name = name;
      rec = rec;
      name_of = en;
      there = ef;
      alive = alive;
      mine = ground arith;
      reply_of = replied;
      after_of = saved_as;
    }
renew_entry-Renewed sys raw name ttl_s file reply after (some null_entry) en ef h = cc h
renew_entry-Renewed sys raw name ttl_s file reply after (some other_entry) en ef h = cc h
renew_entry-Renewed sys raw name ttl_s file reply after none en ef h = cc h

pub renew-Renewed :
    (sys : System) (raw : Text) (ttl_s : ℤ) (file : RegistryFile) (reply : Reply) (after : Leases)
    → renew sys raw ttl_s file ≡ ok (reply, after)
    → Renewed sys raw ttl_s file reply after
unfolding renew
renew-Renewed sys raw ttl_s file reply after h =
    let (name, en, h1) = >>=-eq-ok (norm_name raw) _ h in
    let (leases, el, h2) = >>=-eq-ok (load_strict file) _ h1 in
    let same : leases ≡ load_lenient file = sym (load-same file leases el) in
    renew_entry-Renewed sys raw name ttl_s file reply after (find name (load_lenient file)) en refl
      (rw same at h2)

-- What `release` has done when it returned: nothing was there, or its own or a dead entry is gone.
pub data Released (sys : System) (file : RegistryFile) (name : Text)
    : Reply × Option Leases → Type 0 where
  nothing_there :
      (found : Option Entry)
      → find name (load_lenient file) ≡ found
      → (found ≡ none) ⊎ (found ≡ some null_entry)
      → Released sys file name (released false, none)
  removed :
      (e : Entry)
      → find name (load_lenient file) ≡ some e
      → (lease_pid_dead sys e || held_by_me sys e) ≡ true
      → Released sys file name (released true, some (remove name (load_lenient file)))

release_found-Released :
    (sys : System) (file : RegistryFile) (name : Text) (found : Option Entry)
    (a : Reply × Option Leases)
    → find name (load_lenient file) ≡ found
    → release_found sys name (load_lenient file) found ≡ ok a
    → Released sys file name a
unfolding release_found release_entry
release_found-Released sys file name none a ef h =
    subst (Released sys file name) (ok-eq-ok h) (nothing_there none ef (inl refl))
release_found-Released sys file name (some null_entry) a ef h =
    subst (Released sys file name) (ok-eq-ok h) (nothing_there (some null_entry) ef (inr refl))
release_found-Released sys file name (some other_entry) a ef h =
    elim (Bool-cases (lease_pid_dead sys other_entry || held_by_me sys other_entry)) [
      | inl may ↦
          subst (Released sys file name) (ok-eq-ok (rw (may, release_found, release_entry) at h))
            (removed other_entry ef may)
      | inr held ↦ cc (rw (held, release_found, release_entry) at h)
    ]
release_found-Released sys file name (some (lease rec)) a ef h =
    elim (Bool-cases (lease_pid_dead sys (lease rec) || held_by_me sys (lease rec))) [
      | inl may ↦
          subst (Released sys file name) (ok-eq-ok (rw (may, release_found, release_entry) at h))
            (removed (lease rec) ef may)
      | inr held ↦ cc (rw (held, release_found, release_entry) at h)
    ]

pub release-Released :
    (sys : System) (raw : Text) (file : RegistryFile) (a : Reply × Option Leases)
    → release sys raw file ≡ ok a
    → (name : Text) × (norm_name raw ≡ ok name) × Released sys file name a
unfolding release
release-Released sys raw file a h =
    let (name, en, h1) = >>=-eq-ok (norm_name raw) _ h in
    let (leases, el, h2) = >>=-eq-ok (load_strict file) _ h1 in
    let same : leases ≡ load_lenient file = sym (load-same file leases el) in
    (
      name,
      en,
      release_found-Released sys file name (find name (load_lenient file)) a refl (rw same at h2),
    )

-- What holds of the leases before a call holds after it, if it holds of those that the call saves.
module _ (P : Leases → Type 0) (file : RegistryFile) (old : P (load_lenient file)) where
  pub saved-after :
      (answer : Answer)
      → ((reply : Reply) (after : Leases) → answer ≡ ok (reply, after) → P after)
      → P (load_lenient (saved file answer).1)
  unfolding saved load_lenient
  saved-after (ok (reply, after)) new = new reply after refl
  saved-after (err e) new = old

  pub saved_if-after :
      (answer : Result ValueError (Reply × Option Leases))
      → ((reply : Reply) (after : Leases) → answer ≡ ok (reply, some after) → P after)
      → P (load_lenient (saved_if file answer).1)
  unfolding saved_if load_lenient
  saved_if-after (ok (reply, some after)) new = new reply after refl
  saved_if-after (ok (reply, none)) new = old
  saved_if-after (err e) new = old

-- The leases that a call of `release` saves are those before it without the name.
pub Released-after :
    {sys : System} {file : RegistryFile} {name : Text} {a : Reply × Option Leases} (after : Leases)
    → Released sys file name a
    → a.1 ≡ some after
    → after ≡ remove name (load_lenient file)
Released-after after (nothing_there found there why) e = cc e
Released-after after (removed entry there may) e = cc e

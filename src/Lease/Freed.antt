-- ===== src/Lease/Freed.antt =====
-- memory/stream_lease.py: which leases a process holds after calls of its own and of others.
use agentic_loop_template.Base.{
  ◌≡◌, ◌≢◌, refl, sym, ap, ◌∙◌, subst, inl, inr, true, ◌||◌, List, Option, none, some, ok, In,
  Bool-cases, arith,
}
use agentic_loop_template.Base.Int.{ℤ, eq_ℤ_iff}
use agentic_loop_template.Base.Text.{Text}
use agentic_loop_template.Lease.Liveness.{
  System, LeaseRecord, Entry, lease, null_entry, lease_pid, lease_pid_dead,
}
use agentic_loop_template.Lease.Registry.{
  Leases, RegistryFile, missing, unreadable_file, registry, load_strict, load_lenient, find,
  norm_name, ClaimArgs, new_record, reclaimed,
}
use agentic_loop_template.Lease.Registry.Entries.{Item, put-In, remove-In}
use agentic_loop_template.Lease.Requests.{
  claim, renew, renewed, release, release_found, release_entry, saved_if, held_by_me, Request,
  claim_lease, renew_lease, release_lease, status, serve,
}
use agentic_loop_template.Lease.Outcomes.{
  Granted, fresh, again, claim-Claimed, load-same, renew-Renewed, release-Released, Released-after,
  saved-after, saved_if-after,
}
use agentic_loop_template.Lease.Exclusive.{Granted-In}
use agentic_loop_template.Lease.Unique.{UniqueNames, remove-Absent, In-find}

-- The process `me` holds the entry.
abbrev pub HeldBy : ℤ → Entry → Type 0
HeldBy me e = lease_pid e ≡ some me

some-eq : {a b : ℤ} → some a ≡ some b → a ≡ b
some-eq h = cc h

Granted-pid :
    {sys : System} {args : ClaimArgs} {name : Text} {paths : List Text} {leases after : Leases}
    {rec : LeaseRecord}
    → Granted sys args name paths leases after rec
    → lease_pid (lease rec) ≡ some sys.getpid
unfolding lease_pid new_record reclaimed
Granted-pid (fresh kept _ _ is_rec _) = rw is_rec refl
Granted-pid (again existing _ _ is_rec _) = rw is_rec refl

-- What `me` holds after a call of another process it held before.
pub serve-else :
    (sys : System) (req : Request) (file : RegistryFile) (me : ℤ)
    → sys.getpid ≢ me
    → (m : Text) (e : Entry) → In {A = Item} (m, e) (load_lenient (serve sys req file).1)
    → HeldBy me e
    → In {A = Item} (m, e) (load_lenient file)
unfolding serve renewed lease_pid
serve-else sys (claim_lease args) file me ne m e =
    saved-after
      (λ ls. In {A = Item} (m, e) ls → HeldBy me e → In {A = Item} (m, e) (load_lenient file)) file
      (λ i h. i) (claim sys args file)
      λ reply after h.
        let c = claim-Claimed sys args file reply after h in
        λ i mine. elim (Granted-In sys args c.name c.paths c.leases after c.rec c.slot m e i) [
          | inl new ↦
              absurd (ne (some-eq (sym (Granted-pid c.slot) ∙ sym (ap lease_pid new.1) ∙ mine)))
          | inr old ↦
              subst (λ ls. In {A = Item} (m, e) ls) (sym (load-same file c.leases c.loaded)) old.0
        ]
serve-else sys (renew_lease raw ttl_s) file me ne m e =
    saved-after
      (λ ls. In {A = Item} (m, e) ls → HeldBy me e → In {A = Item} (m, e) (load_lenient file)) file
      (λ i h. i) (renew sys raw ttl_s file)
      λ reply after h.
        let r = renew-Renewed sys raw ttl_s file reply after h in
        λ i mine.
          elim (put-In r.name (lease (renewed sys ttl_s r.rec)) (load_lenient file) m e
            (subst (λ ls. In {A = Item} (m, e) ls) r.after_of i)) [
              | inl new ↦
                  absurd
                    (ne (some-eq (renewed-pid sys ttl_s r.rec ∙ sym (ap lease_pid new.1) ∙ mine)))
              | inr old ↦ old
            ]
  where
    renewed-pid :
        (sys : System) (ttl_s : ℤ) (rec : LeaseRecord)
        → some sys.getpid ≡ lease_pid (lease (renewed sys ttl_s rec))
    renewed-pid sys ttl_s rec = refl
serve-else sys (release_lease raw) file me ne m e =
    saved_if-after
      (λ ls. In {A = Item} (m, e) ls → HeldBy me e → In {A = Item} (m, e) (load_lenient file)) file
      (λ i h. i) (release sys raw file)
      λ reply after h.
        let (name, _, gone) = release-Released sys raw file (reply, some after) h in
        λ i mine.
          remove-In name (load_lenient file) (m, e)
            (subst (λ ls. In {A = Item} (m, e) ls) (Released-after after gone refl) i)
serve-else sys status file me ne m e = λ i mine. i

-- A release takes no entry in.
pub release-In :
    (sys : System) (raw : Text) (file : RegistryFile) (x : Item)
    → In x (load_lenient (serve sys (release_lease raw) file).1)
    → In x (load_lenient file)
unfolding serve
release-In sys raw file x =
    saved_if-after (λ ls. In x ls → In x (load_lenient file)) file (λ i. i) (release sys raw file)
      λ reply after h.
        let (name, _, gone) = release-Released sys raw file (reply, some after) h in
        λ i. remove-In name (load_lenient file) x (subst (In x) (Released-after after gone refl) i)

mine-held : (sys : System) (e : Entry) → HeldBy sys.getpid e → held_by_me sys e ≡ true
unfolding held_by_me
mine-held sys e mine = rw (mine, held_by_me) ((eq_ℤ_iff sys.getpid sys.getpid).1 refl)

-- After the release of a name nothing under it is the caller's.
pub release-frees :
    (sys : System) (raw name : Text) (file : RegistryFile) (e : Entry)
    → norm_name raw ≡ ok name
    → UniqueNames (load_lenient file)
    → In {A = Item} (name, e) (load_lenient (serve sys (release_lease raw) file).1)
    → HeldBy sys.getpid e
    → ⊥
unfolding serve release load_strict load_lenient saved_if release_found release_entry lease_pid find
release-frees sys raw name missing e en u i mine = elim (rw (en, find) at i) [ ]
release-frees sys raw name unreadable_file e en u i mine = elim (rw en at i) [ ]
release-frees sys raw name (registry leases) e en u i mine =
    by_found (find name leases) refl (rw en at i)
  where
    by_found :
        (found : Option Entry)
        → find name leases ≡ found
        → In {A = Item}
            (name, e)
            (load_lenient (saved_if (registry leases) (release_found sys name leases found)).1)
        → ⊥
    by_found none ef j = cc (sym ef ∙ In-find name e leases u j)
    by_found (some null_entry) ef j =
        let same : some null_entry ≡ some e = sym ef ∙ In-find name e leases u j in
        let is_e : null_entry ≡ e = cc same in cc (ap lease_pid is_e ∙ mine)
    by_found (some x) ef j = elim (Bool-cases (lease_pid_dead sys x || held_by_me sys x)) [
      | inl may ↦ remove-Absent name leases u e (rw (may, release_found, release_entry) at j)
      | inr held ↦
          let same : some x ≡ some e =
            sym ef ∙ In-find name e leases u (rw (held, release_found, release_entry) at j) in
          let is_e : x ≡ e = cc same in
          let yes_mine : held_by_me sys x ≡ true = rw is_e (mine-held sys e mine) in ground arith
    ]

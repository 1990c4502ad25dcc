-- ===== src/Lease/Exclusive.antt =====
-- memory/stream_lease.py: the leases in the registry never overlap.
use agentic_loop_template.Base.{◌≡◌, ◌≢◌, refl, sym, ◌∙◌, subst, ◌⊎◌, inl, inr, List, some, In}
use agentic_loop_template.Base.Int.{ℤ}
use agentic_loop_template.Base.Text.{Text}
use agentic_loop_template.Streams.Plans.Disjoint.{Apart-sym, ListsApart}
use agentic_loop_template.Lease.Liveness.{System, LeaseRecord, Entry, lease}
use agentic_loop_template.Lease.Registry.{
  Leases, RegistryFile, put, remove, load_lenient, owned_of, ClaimArgs, new_record, reclaimed,
}
use agentic_loop_template.Lease.Registry.Entries.{Item, put-In, remove-In}
use agentic_loop_template.Lease.Registry.Loops.{check_live-Apart, MayStay, drop_dead-In}
use agentic_loop_template.Lease.Registry.Lookup.{find-In}
use agentic_loop_template.Lease.Requests.{
  Reply, claim, renew, renewed, release, Request, claim_lease, renew_lease, release_lease, status,
  serve,
}
use agentic_loop_template.Lease.Outcomes.{
  Granted, fresh, again, Claimed, claim-Claimed, load-same, Renewed, renew-Renewed,
  release-Released, Released-after, saved-after, saved_if-after,
}

-- The tokens of entries of different names are apart.
abbrev pub IsExclusive : Leases → Type 0
IsExclusive leases =
    (m n : Text) (e f : Entry)
    → In {A = Item} (m, e) leases
    → In {A = Item} (n, f) leases
    → m ≢ n
    → ListsApart (owned_of e) (owned_of f)

ListsApart-sym : (oas obs : List Text) → ListsApart oas obs → ListsApart obs oas
ListsApart-sym oas obs h ob oa mb ma = Apart-sym oa ob (h oa ob ma mb)

-- One entry more, or one replaced, keeps the leases exclusive, if it is apart from the others.
IsExclusive-with :
    (leases after : Leases) (name : Text) (new : Entry)
    → IsExclusive leases
    → ((m : Text) (e : Entry)
        → In {A = Item} (m, e) after
        → ((m ≡ name) × (e ≡ new))
          ⊎ (In {A = Item} (m, e) leases × (m ≢ name → ListsApart (owned_of new) (owned_of e))))
    → IsExclusive after
IsExclusive-with leases after name new old from m n e f ie jf ne = go (from m e ie) (from n f jf)
  where
    go :
        (((m ≡ name) × (e ≡ new))
          ⊎ (In {A = Item} (m, e) leases × (m ≢ name → ListsApart (owned_of new) (owned_of e))))
        → (((n ≡ name) × (f ≡ new))
            ⊎ (In {A = Item} (n, f) leases × (n ≢ name → ListsApart (owned_of new) (owned_of f))))
        → ListsApart (owned_of e) (owned_of f)
    go (inl (mn, en)) (inl (nn, fn)) = absurd (ne (mn ∙ sym nn))
    go (inl (mn, en)) (inr (_, apart)) =
        subst (λ x. ListsApart (owned_of x) (owned_of f)) (sym en) (apart (λ q. ne (mn ∙ sym q)))
    go (inr (_, apart)) (inl (nn, fn)) =
        subst (λ x. ListsApart (owned_of e) (owned_of x)) (sym fn)
          (ListsApart-sym (owned_of new) (owned_of e) (apart (λ q. ne (q ∙ sym nn))))
    go (inr (i, _)) (inr (j, _)) = old m n e f i j ne

pub owned_of-Granted :
    {sys : System} {args : ClaimArgs} {name : Text} {paths : List Text} {leases after : Leases}
    {rec : LeaseRecord}
    → Granted sys args name paths leases after rec
    → owned_of (lease rec) ≡ paths
unfolding owned_of new_record reclaimed
owned_of-Granted (fresh kept _ _ is_rec _) = rw is_rec refl
owned_of-Granted (again existing _ _ is_rec _) = rw is_rec refl

-- An entry that `claim` leaves is the new one, or it was there and may stay.
pub Granted-In :
    (sys : System) (args : ClaimArgs) (name : Text) (paths : List Text) (leases after : Leases)
    (rec : LeaseRecord)
    → Granted sys args name paths leases after rec
    → (m : Text) (e : Entry) → In {A = Item} (m, e) after
    → ((m ≡ name) × (e ≡ lease rec)) ⊎ (In {A = Item} (m, e) leases × MayStay sys name paths (m, e))
Granted-In sys args name paths leases after rec (fresh kept _ dropped _ is_after) m e i =
    elim (put-In name (lease rec) kept m e (subst (In (m, e)) is_after i)) [
      | inl new ↦ inl new
      | inr old ↦ inr (drop_dead-In sys name paths leases kept dropped (m, e) old)
    ]
Granted-In sys args name paths leases after rec (again existing _ _ _ dropped) m e i =
    let (before, why) = drop_dead-In sys name paths _ after dropped (m, e) i in
    elim (put-In name (lease rec) leases m e before) [
      | inl new ↦ inl new
      | inr old ↦ inr (old, why)
    ]

claim-IsExclusive :
    (sys : System) (args : ClaimArgs) (file : RegistryFile) (reply : Reply) (after : Leases)
    → Claimed sys args file reply after
    → IsExclusive (load_lenient file)
    → IsExclusive after
claim-IsExclusive sys args file reply after c old =
    IsExclusive-with c.leases after c.name (lease c.rec)
      (rw (load-same file c.leases c.loaded) at old)
      λ m e i. elim (Granted-In sys args c.name c.paths c.leases after c.rec c.slot m e i) [
        | inl new ↦ inl new
        | inr (before, why) ↦ inr (
          before,
          λ ne. rw (owned_of-Granted c.slot) (elim why [
            | inl mine ↦ absurd (ne mine)
            | inr (inl live) ↦
                check_live-Apart sys c.name c.paths c.leases c.checked m e before ne live
            | inr (inr apart) ↦ apart
          ]),
        )
      ]

renew-IsExclusive :
    (leases : Leases) (name : Text) (rec new : LeaseRecord)
    → In {A = Item} (name, lease rec) leases
    → owned_of (lease new) ≡ owned_of (lease rec)
    → IsExclusive leases
    → IsExclusive (put name (lease new) leases)
renew-IsExclusive leases name rec new there same old =
    IsExclusive-with leases (put name (lease new) leases) name (lease new) old λ m e i.
      elim (put-In name (lease new) leases m e i) [
        | inl replaced ↦ inl replaced
        | inr before ↦
            inr (before, λ ne. rw same (old name m (lease rec) e there before (λ q. ne (sym q))))
      ]

remove-IsExclusive :
    (leases : Leases) (name : Text) → IsExclusive leases → IsExclusive (remove name leases)
remove-IsExclusive leases name old m n e f i j =
    old m n e f (remove-In name leases (m, e) i) (remove-In name leases (n, f) j)

owned_of-renewed :
    (sys : System) (ttl_s : ℤ) (rec : LeaseRecord)
    → owned_of (lease (renewed sys ttl_s rec)) ≡ owned_of (lease rec)
unfolding owned_of renewed
owned_of-renewed sys ttl_s rec = refl

-- When the tokens of leases of different names are apart before a call, they are apart after it, whether it returns or raises.
pub serve-IsExclusive :
    (sys : System) (req : Request) (file : RegistryFile)
    → IsExclusive (load_lenient file)
    → IsExclusive (load_lenient (serve sys req file).1)
unfolding serve
serve-IsExclusive sys (claim_lease args) file old =
    saved-after IsExclusive file old (claim sys args file) λ reply after h.
      claim-IsExclusive sys args file reply after (claim-Claimed sys args file reply after h) old
serve-IsExclusive sys (renew_lease raw ttl_s) file old =
    saved-after IsExclusive file old (renew sys raw ttl_s file) λ reply after h.
      renewed_exclusive reply after (renew-Renewed sys raw ttl_s file reply after h)
  where
    renewed_exclusive :
        (reply : Reply) (after : Leases)
        → Renewed sys raw ttl_s file reply after
        → IsExclusive after
    renewed_exclusive reply after r = subst IsExclusive (sym r.after_of) (
        renew-IsExclusive (load_lenient file) r.name r.rec (renewed sys ttl_s r.rec)
          (find-In r.name (load_lenient file) (lease r.rec) r.there)
          (owned_of-renewed sys ttl_s r.rec) old)
serve-IsExclusive sys (release_lease raw) file old =
    saved_if-after IsExclusive file old (release sys raw file) λ reply after h.
      let (name, _, gone) = release-Released sys raw file (reply, some after) h in
      subst IsExclusive (sym (Released-after after gone refl))
        (remove-IsExclusive (load_lenient file) name old)
serve-IsExclusive sys status file old = old

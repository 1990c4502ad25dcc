-- ===== src/Lease/Unique.antt =====
-- memory/stream_lease.py: "leases" is a dict, so that a name stands in it once, and every call keeps it so.
use agentic_loop_template.Base.{
  ◌≡◌, ◌≢◌, refl, sym, ap, subst, inl, inr, Bool, true, false, List, [], ◌∷◌, some, ok, In,
  Bool-cases, if◌then◌else◌, >>=-eq-ok,
}
use agentic_loop_template.Base.Text.{Text, text_eq, text_eq_iff}
use agentic_loop_template.Lease.Liveness.{System, LeaseRecord, Entry, lease}
use agentic_loop_template.Lease.Registry.{
  Leases, RegistryFile, find, put, remove, load_lenient, stays, drop_dead_overlapping, ClaimArgs,
}
use agentic_loop_template.Lease.Registry.Entries.{Item, put-In, remove-In}
use agentic_loop_template.Lease.Registry.Loops.{drop_dead-In}
use agentic_loop_template.Lease.Requests.{
  claim, renew, release, Request, claim_lease, renew_lease, release_lease, status, serve,
}
use agentic_loop_template.Lease.Outcomes.{
  Granted, fresh, again, claim-Claimed, load-same, renew-Renewed, release-Released, Released-after,
  saved-after, saved_if-after,
}
use agentic_loop_template.Lease.Reach.{Reach, start, call}

abbrev pub Absent : Text → Leases → Type 0
Absent name leases = (e : Entry) → In {A = Item} (name, e) leases → ⊥

unfoldable pub UniqueNames : Leases → Type 0
UniqueNames [] = Unit {0}
UniqueNames ((n, e) ∷ leases) = Absent n leases × UniqueNames leases

names_differ : (n name : Text) → text_eq n name ≡ false → n ≢ name
names_differ n name other same = cc (other, (text_eq_iff n name).1 same)

put-UniqueNames :
    (name : Text) (e : Entry) (leases : Leases)
    → UniqueNames leases
    → UniqueNames (put name e leases)
unfolding put UniqueNames
put-UniqueNames name e [] u = (λ x i. elim i [ ], tt)
put-UniqueNames name e ((n, e') ∷ leases) (absent, u) = elim (Bool-cases (text_eq n name)) [
  | inl found ↦ rw found (absent, u)
  | inr other ↦ rw other (
    λ x i. elim (put-In name e leases n x i) [
      | inl new ↦ names_differ n name other new.0
      | inr old ↦ absent x old
    ],
    put-UniqueNames name e leases u,
  )
]

remove-UniqueNames :
    (name : Text) (leases : Leases) → UniqueNames leases → UniqueNames (remove name leases)
unfolding remove UniqueNames
remove-UniqueNames name [] u = tt
remove-UniqueNames name ((n, e) ∷ leases) (absent, u) = elim (Bool-cases (text_eq n name)) [
  | inl found ↦ rw found u
  | inr other ↦
      rw other (λ x i. absent x (remove-In name leases (n, x) i), remove-UniqueNames name leases u)
]

pub remove-Absent :
    (name : Text) (leases : Leases) → UniqueNames leases → Absent name (remove name leases)
unfolding remove UniqueNames
remove-Absent name [] u e i = elim i [ ]
remove-Absent name ((n, e') ∷ leases) (absent, u) e i = elim (Bool-cases (text_eq n name)) [
  | inl found ↦
      let same : n ≡ name = (text_eq_iff n name).0 found in
      subst (λ m. Absent m leases) same absent e (rw (found, remove) at i)
  | inr other ↦ elim (rw (other, remove) at i) [
    | inl here ↦ names_differ n name other (sym (ap (λ (x : Item). x.0) here))
    | inr there ↦ remove-Absent name leases u e there
  ]
]

-- What stands under a name is what `leases.get(name)` finds.
pub In-find :
    (name : Text) (e : Entry) (leases : Leases)
    → UniqueNames leases
    → In {A = Item} (name, e) leases
    → find name leases ≡ some e
unfolding find UniqueNames
In-find name e [] u i = elim i [ ]
In-find name e ((n, e') ∷ leases) (absent, u) i = elim (Bool-cases (text_eq n name)) [
  | inl found ↦ rw found (elim i [
    | inl here ↦ ap some (sym (ap (λ (x : Item). x.1) here))
    | inr there ↦
        let same : name ≡ n = sym ((text_eq_iff n name).0 found) in
        absurd (absent e (subst (λ m. In {A = Item} (m, e) leases) same there))
  ])
  | inr other ↦ rw other (elim i [
    | inl here ↦ absurd (names_differ n name other (sym (ap (λ (x : Item). x.0) here)))
    | inr there ↦ In-find name e leases u there
  ])
]

drop_dead-UniqueNames :
    (sys : System) (name : Text) (paths : List Text) (leases kept : Leases)
    → drop_dead_overlapping sys name paths leases ≡ ok kept
    → UniqueNames leases
    → UniqueNames kept
unfolding drop_dead_overlapping UniqueNames
drop_dead-UniqueNames sys name paths [] kept h u =
    let nothing : [] ≡ kept = cc h in subst UniqueNames nothing tt
drop_dead-UniqueNames sys name paths ((other, e) ∷ leases) kept h (absent, u) =
    let (keep, stay, h') = >>=-eq-ok (stays sys name paths other e) _ h in
    let (rest, er, h'') = >>=-eq-ok (drop_dead_overlapping sys name paths leases) _ h' in
    let same : (if keep then (other, e) ∷ rest else rest) ≡ kept = cc h'' in
    let later = drop_dead-UniqueNames sys name paths leases rest er u in
    subst UniqueNames same (
      kept_or_not keep e rest later
        (λ x i. absent x (drop_dead-In sys name paths leases rest er (other, x) i).0))
  where
    kept_or_not :
        (keep : Bool) (e : Entry) (rest : Leases)
        → UniqueNames rest
        → Absent other rest
        → UniqueNames (if keep then (other, e) ∷ rest else rest)
    kept_or_not true e rest later absent_there = (absent_there, later)
    kept_or_not false e rest later absent_there = later

Granted-UniqueNames :
    (sys : System) (args : ClaimArgs) (name : Text) (paths : List Text) (leases after : Leases)
    (rec : LeaseRecord)
    → Granted sys args name paths leases after rec
    → UniqueNames leases
    → UniqueNames after
Granted-UniqueNames sys args name paths leases after rec (fresh kept _ dropped _ is_after) u =
    subst UniqueNames (sym is_after) (
      put-UniqueNames name (lease rec) kept
        (drop_dead-UniqueNames sys name paths leases kept dropped u))
Granted-UniqueNames sys args name paths leases after rec (again existing _ _ _ dropped) u =
    drop_dead-UniqueNames sys name paths (put name (lease rec) leases) after dropped
      (put-UniqueNames name (lease rec) leases u)

pub serve-UniqueNames :
    (sys : System) (req : Request) (file : RegistryFile)
    → UniqueNames (load_lenient file)
    → UniqueNames (load_lenient (serve sys req file).1)
unfolding serve
serve-UniqueNames sys (claim_lease args) file u =
    saved-after UniqueNames file u (claim sys args file) λ reply after h.
      let c = claim-Claimed sys args file reply after h in
      Granted-UniqueNames sys args c.name c.paths c.leases after c.rec c.slot
        (subst UniqueNames (load-same file c.leases c.loaded) u)
serve-UniqueNames sys (renew_lease raw ttl_s) file u =
    saved-after UniqueNames file u (renew sys raw ttl_s file) λ reply after h.
      let r = renew-Renewed sys raw ttl_s file reply after h in
      subst UniqueNames (sym r.after_of) (put-UniqueNames r.name _ (load_lenient file) u)
serve-UniqueNames sys (release_lease raw) file u =
    saved_if-after UniqueNames file u (release sys raw file) λ reply after h.
      let (name, _, gone) = release-Released sys raw file (reply, some after) h in
      subst UniqueNames (sym (Released-after after gone refl))
        (remove-UniqueNames name (load_lenient file) u)
serve-UniqueNames sys status file u = u

pub Reach-UniqueNames : {file : RegistryFile} → Reach file → UniqueNames (load_lenient file)
unfolding load_lenient UniqueNames
Reach-UniqueNames start = tt
Reach-UniqueNames (call {file} sys req before) =
    serve-UniqueNames sys req file (Reach-UniqueNames before)

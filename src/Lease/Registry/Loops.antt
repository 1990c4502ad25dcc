-- ===== src/Lease/Registry/Loops.antt =====
-- memory/stream_lease.py: what the loops of the registry let pass, and which entries they keep.
use agentic_loop_template.Base.{
  ◌≡◌, ◌≢◌, refl, sym, ap, ◌∙◌, subst, ◌⊎◌, inl, inr, true, false, not, ◌||◌, List, [], ◌∷◌, Option,
  none, some, arith, In, Bool-cases, Option-cases, ok, >>=-eq-ok, >>-eq-ok, if◌then◌else◌,
}
use agentic_loop_template.Base.Text.{Text, text_eq, text_eq_iff}
use agentic_loop_template.Streams.Plans.{covers_either}
use agentic_loop_template.Streams.Plans.Disjoint.{Apart, ListsApart, covers_either-Apart}
use agentic_loop_template.Lease.Liveness.{System, Entry, lease_pid_dead}
use agentic_loop_template.Lease.Registry.{
  Leases, overlap_pair, overlap_with, owned_of, is_object, is_live, raise_overlap, or_later, stays,
  check_live, drop_dead_overlapping,
}
use agentic_loop_template.Lease.Registry.Entries.{Item}

overlap_with-Apart :
    (oa : Text) (obs : List Text)
    → overlap_with oa obs ≡ ok none
    → (ob : Text) → In ob obs
    → Apart oa ob
unfolding overlap_with
overlap_with-Apart oa [] h ob m = elim m [ ]
overlap_with-Apart oa (ob' ∷ obs) h ob m =
    let (c, e, rest) = >>=-eq-ok (covers_either oa ob') _ h in
    elim (Bool-cases c) [
      | inl hit ↦ cc (rw hit at rest)
      | inr clear ↦ elim m [
        | inl here ↦
            subst (λ t. Apart oa t) (sym here) (covers_either-Apart oa ob' (e ∙ ap ok clear))
        | inr there ↦ overlap_with-Apart oa obs (rw clear at rest) ob there
      ]
    ]

-- No overlapping pair was found: the two lists are apart.
pub overlap_pair-Apart : (oas obs : List Text) → overlap_pair oas obs ≡ ok none → ListsApart oas obs
unfolding overlap_pair or_later
overlap_pair-Apart [] obs h oa ob ma mb = elim ma [ ]
overlap_pair-Apart (oa' ∷ oas) obs h oa ob ma mb =
    let (found, e, later) = >>=-eq-ok (overlap_with oa' obs) _ h in
    elim (Option-cases found) [
      | inr (pair, hit) ↦ cc (rw (hit, or_later) at later)
      | inl clear ↦ elim ma [
        | inl here ↦
            subst (λ t. Apart t ob) (sym here) (overlap_with-Apart oa' obs (e ∙ ap ok clear) ob mb)
        | inr there ↦ overlap_pair-Apart oas obs (rw (clear, or_later) at later) oa ob there mb
      ]
    ]

raise_overlap-none :
    (name other : Text) (pair : Option (Text × Text))
    → raise_overlap name other pair ≡ ok tt
    → pair ≡ none
unfolding raise_overlap
raise_overlap-none name other none h = refl
raise_overlap-none name other (some pair) h = cc

-- A live lease of another stream is one that the loops test, or keep.
tested_by_loop :
    (sys : System) (name m : Text) (e : Entry)
    → m ≢ name
    → is_live sys e ≡ true
    → (text_eq m name || not (is_live sys e)) ≡ false
tested_by_loop sys name m e ne live = ground (arith, text_eq_iff m name)

-- `claim`'s first loop passed: every live lease of another stream is apart from the paths.
pub check_live-Apart :
    (sys : System) (name : Text) (paths : List Text) (leases : Leases)
    → check_live sys name paths leases ≡ ok tt
    → (m : Text) (e : Entry) → In {A = Item} (m, e) leases
    → m ≢ name
    → is_live sys e ≡ true
    → ListsApart paths (owned_of e)
unfolding check_live
check_live-Apart sys name paths [] h m e i ne live = elim i [ ]
check_live-Apart sys name paths ((other, e') ∷ leases) h m e (inr there) ne live =
    elim (Bool-cases (text_eq other name || not (is_live sys e'))) [
      | inl passed ↦ check_live-Apart sys name paths leases (rw passed at h) m e there ne live
      | inr tested ↦
          let (pair, ep, h') = >>=-eq-ok (overlap_pair paths (owned_of e')) _ (rw tested at h) in
          let (clear, later) = >>-eq-ok (raise_overlap name other pair) _ h' in
          check_live-Apart sys name paths leases later m e there ne live
    ]
check_live-Apart sys name paths ((other, e') ∷ leases) h m e (inl here) ne live =
    let tested : (text_eq other name || not (is_live sys e')) ≡ false =
      subst (λ (x : Item). (text_eq x.0 name || not (is_live sys x.1)) ≡ false) here
        (tested_by_loop sys name m e ne live) in
    let (pair, ep, h') = >>=-eq-ok (overlap_pair paths (owned_of e')) _ (rw tested at h) in
    let (clear, later) = >>-eq-ok (raise_overlap name other pair) _ h' in
    subst (λ (x : Item). ListsApart paths (owned_of x.1)) (sym here)
      (overlap_pair-Apart paths (owned_of e')
        (ep ∙ ap ok (raise_overlap-none name other pair clear)))

-- Why an entry may stay after the dead overlapping ones are dropped.
abbrev pub MayStay : System → Text → List Text → Item → Type 0
MayStay sys name paths (m, e) = (m ≡ name) ⊎ (is_live sys e ≡ true) ⊎ ListsApart paths (owned_of e)

stays-MayStay :
    (sys : System) (name : Text) (paths : List Text) (m : Text) (e : Entry)
    → stays sys name paths m e ≡ ok true
    → MayStay sys name paths (m, e)
unfolding stays is_live
stays-MayStay sys name paths m e h = elim (Bool-cases (text_eq m name)) [
  | inl mine ↦ inl ((text_eq_iff m name).0 mine)
  | inr other ↦ elim (Bool-cases (is_object e)) [
    | inr bad ↦ cc (rw (other, bad) at h)
    | inl object ↦ elim (Bool-cases (lease_pid_dead sys e)) [
      | inr alive ↦ inr (inl (rw (object, alive) refl))
      | inl dead ↦
          let (pair, ep, h') =
            >>=-eq-ok (overlap_pair paths (owned_of e)) _ (rw (other, object, dead) at h) in
          elim (Option-cases pair) [
            | inl clear ↦ inr (inr (overlap_pair-Apart paths (owned_of e) (ep ∙ ap ok clear)))
            | inr (p, hit) ↦ cc (rw hit at h')
          ]
    ]
  ]
]

-- What is left was there before, and may stay.
pub drop_dead-In :
    (sys : System) (name : Text) (paths : List Text) (leases kept : Leases)
    → drop_dead_overlapping sys name paths leases ≡ ok kept
    → (x : Item) → In x kept
    → In x leases × MayStay sys name paths x
unfolding drop_dead_overlapping
drop_dead-In sys name paths [] kept h x i =
    let nothing : [] ≡ kept = cc h in absurd (rw (← nothing) at i)
drop_dead-In sys name paths ((other, e) ∷ leases) kept h x i =
    let (keep, stay, h') = >>=-eq-ok (stays sys name paths other e) _ h in
    let (rest, er, h'') = >>=-eq-ok (drop_dead_overlapping sys name paths leases) _ h' in
    let same : (if keep then (other, e) ∷ rest else rest) ≡ kept = cc h'' in
    elim (Bool-cases keep) [
      | inl kept_here ↦ elim (rw (← same, kept_here) at i) [
        | inl here ↦ (
          inl here,
          subst (MayStay sys name paths) (sym here)
              (stays-MayStay sys name paths other e (stay ∙ ap ok kept_here)),
        )
        | inr there ↦
            let (old, why) = drop_dead-In sys name paths leases rest er x there in (inr old, why)
      ]
      | inr dropped ↦
          let (old, why) =
            drop_dead-In sys name paths leases rest er x (rw (← same, dropped) at i) in
          (inr old, why)
    ]

pub stays-true :
    (sys : System) (name : Text) (paths : List Text) (m : Text) (e : Entry)
    → (m ≡ name) ⊎ (is_live sys e ≡ true)
    → stays sys name paths m e ≡ ok true
unfolding stays is_live
stays-true sys name paths m e (inl mine) = ground (arith, text_eq_iff m name)
stays-true sys name paths m e (inr live) = ground arith

-- A live lease, and this stream's own, are left.
pub drop_dead-keeps :
    (sys : System) (name : Text) (paths : List Text) (leases kept : Leases)
    → drop_dead_overlapping sys name paths leases ≡ ok kept
    → (m : Text) (e : Entry) → In {A = Item} (m, e) leases
    → (m ≡ name) ⊎ (is_live sys e ≡ true)
    → In {A = Item} (m, e) kept
unfolding drop_dead_overlapping
drop_dead-keeps sys name paths [] kept h m e i why = elim i [ ]
drop_dead-keeps sys name paths ((other, e') ∷ leases) kept h m e i why =
    let (keep, stay, h') = >>=-eq-ok (stays sys name paths other e') _ h in
    let (rest, er, h'') = >>=-eq-ok (drop_dead_overlapping sys name paths leases) _ h' in
    let same : (if keep then (other, e') ∷ rest else rest) ≡ kept = cc h'' in
    rw (← same) (elim i [
      | inl here ↦
          let stay' : stays sys name paths other e' ≡ ok true =
            subst (λ (x : Item). stays sys name paths x.0 x.1 ≡ ok true) here
              (stays-true sys name paths m e why) in
          let kept_here : keep ≡ true = cc (stay, stay') in rw kept_here (inl here)
      | inr there ↦
          let later = drop_dead-keeps sys name paths leases rest er m e there why in
          elim (Bool-cases keep) [ inl k ↦ rw k (inr later) | inr k ↦ rw k later ]
    ])

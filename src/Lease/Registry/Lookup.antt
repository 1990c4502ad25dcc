-- ===== src/Lease/Registry/Lookup.antt =====
-- memory/stream_lease.py: `leases.get(name)` after each update of the registry.
use mathlib.Core.Path.{ap₂}
use agentic_loop_template.Base.{
  ◌≡◌, ◌≢◌, refl, sym, ap, ◌⊎◌, inl, inr, true, [], ◌∷◌, some, arith, Bool-cases, ok, >>=-eq-ok,
  if◌then◌else◌, List, In,
}
use agentic_loop_template.Base.Text.{Text, text_eq, text_eq_iff}
use agentic_loop_template.Lease.Liveness.{System, Entry}
use agentic_loop_template.Lease.Registry.{
  Leases, find, put, remove, is_live, stays, drop_dead_overlapping,
}
use agentic_loop_template.Lease.Registry.Entries.{Item}
use agentic_loop_template.Lease.Registry.Loops.{stays-true}

module _ (name : Text) where
  pub find-put_self : (e : Entry) (leases : Leases) → find name (put name e leases) ≡ some e
  unfolding find put
  find-put_self e [] = ground (arith, text_eq_iff name name)
  find-put_self e ((n, e') ∷ leases) = ground (arith, find-put_self e leases)

  pub find-put_ne :
      (m : Text) (e : Entry) (leases : Leases)
      → m ≢ name
      → find m (put name e leases) ≡ find m leases
  unfolding find put
  find-put_ne m e [] ne = ground (arith, text_eq_iff name m)
  find-put_ne m e ((n, e') ∷ leases) ne =
      ground (arith, text_eq_iff n m, text_eq_iff n name, find-put_ne m e leases ne)

  pub find-remove_ne :
      (m : Text) (leases : Leases) → m ≢ name → find m (remove name leases) ≡ find m leases
  unfolding find remove
  find-remove_ne m [] ne = refl
  find-remove_ne m ((n, e') ∷ leases) ne =
      ground (arith, text_eq_iff n m, text_eq_iff n name, find-remove_ne m leases ne)

-- A live lease, and this stream's own, are still found after the dead overlapping ones are dropped.
pub find-drop_dead :
    (sys : System) (name : Text) (paths : List Text) (leases kept : Leases) (m : Text) (e : Entry)
    → drop_dead_overlapping sys name paths leases ≡ ok kept
    → find m leases ≡ some e
    → (m ≡ name) ⊎ (is_live sys e ≡ true)
    → find m kept ≡ some e
unfolding find drop_dead_overlapping
find-drop_dead sys name paths [] kept m e h f why = cc f
find-drop_dead sys name paths ((other, e') ∷ leases) kept m e h f why =
    let (keep, stay, h') = >>=-eq-ok (stays sys name paths other e') _ h in
    let (rest, er, h'') = >>=-eq-ok (drop_dead_overlapping sys name paths leases) _ h' in
    let same : (if keep then (other, e') ∷ rest else rest) ≡ kept = cc h'' in
    elim (Bool-cases (text_eq other m)) [
      | inl found ↦
          let is_m : other ≡ m = (text_eq_iff other m).0 found in
          let is_e : e' ≡ e = ground arith in
          let why' : (other ≡ name) ⊎ (is_live sys e' ≡ true) = rw (is_m, is_e) why in
          let stayed : keep ≡ true = cc (stay, stays-true sys name paths other e' why') in
          rw (← same, stayed, find, found) (ap some is_e)
      | inr later ↦
          let in_rest : find m rest ≡ some e =
            find-drop_dead sys name paths leases rest m e er (rw (later, find) at f) why in
          rw (← same) (elim (Bool-cases keep) [
            | inl k ↦ rw (k, find, later) in_rest
            | inr k ↦ rw (k) in_rest
          ])
    ]

pub find-In :
    (name : Text) (leases : Leases) (e : Entry)
    → find name leases ≡ some e
    → In {A = Item} (name, e) leases
unfolding find
find-In name [] e h = cc h
find-In name ((n, e') ∷ leases) e h = elim (Bool-cases (text_eq n name)) [
  | inl found ↦
      let same : n ≡ name = (text_eq_iff n name).0 found in
      let is_e : e' ≡ e = ground arith in
      inl (ap₂ (λ (t : Text) (x : Entry). let p : Item = (t, x) in p) (sym same) (sym is_e))
  | inr other ↦ inr (find-In name leases e (rw (other, find) at h))
]

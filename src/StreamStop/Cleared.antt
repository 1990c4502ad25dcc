-- ===== src/StreamStop/Cleared.antt =====
-- memory/stream_stop.py: each root is written once, and clearing reaches the roots that were written.
use agentic_loop_template.Base.{
  ℕ, suc, ◌≤◌, Bool, true, false, ◌&&◌, List, [], ◌∷◌, length, if◌then◌else◌, In, ◌≡◌, refl, subst,
  ◌⊎◌, inl, inr, Bool-cases, arith,
}
use agentic_loop_template.Base.Text.{Text, text_eq_iff}
use agentic_loop_template.Json.{contains}
use agentic_loop_template.StreamStop.{
  Disk, unseen, stream_worktrees_from_hub, write_stops, fanout_stop, unlink_stops, clear_fanout,
}

-- No item stands twice.
abbrev pub Distinct : List Text → Type 0
Distinct [] = Unit
Distinct (p ∷ ps) = (In p ps → ⊥) × Distinct ps

unseen-fresh : (r : Text) (seen ps : List Text) → contains r seen ≡ true → In r (unseen seen ps) → ⊥
unfolding unseen contains
unseen-fresh r seen [] old m = elim m [ ]
unseen-fresh r seen (p ∷ ps) old m = elim (Bool-cases (contains p seen)) [
  | inl known ↦ unseen-fresh r seen ps old (rw known at m)
  | inr new ↦ by_place (rw new at m) (unseen-fresh r (p ∷ seen) ps (ground arith)) new
]
  where
    by_place :
        (r ≡ p) ⊎ In r (unseen (p ∷ seen) ps)
        → (In r (unseen (p ∷ seen) ps) → ⊥)
        → contains p seen ≡ false
        → ⊥
    by_place (inl here) later new =
        let old_p : contains p seen ≡ true = subst (λ x. contains x seen ≡ true) here old in
        cc (old_p, new)
    by_place (inr below) later new = later below

unseen-Distinct : (seen ps : List Text) → Distinct (unseen seen ps)
unfolding unseen contains
unseen-Distinct seen [] = tt
unseen-Distinct seen (p ∷ ps) = elim (Bool-cases (contains p seen)) [
  | inl known ↦ rw known (unseen-Distinct seen ps)
  | inr new ↦
      let here : contains p (p ∷ seen) ≡ true =
        let same = (text_eq_iff p p).1 refl in ground arith in
      rw new (unseen-fresh p (p ∷ seen) ps here, unseen-Distinct (p ∷ seen) ps)
]

write_stops-In :
    (disk : Disk) (r : Text) (roots : List Text) → In r (write_stops disk roots) → In r roots
unfolding write_stops
write_stops-In disk r [] m = m
write_stops-In disk r (p ∷ roots) m = elim (Bool-cases (disk.is_dir p && disk.write_stop p)) [
  | inl written ↦ by_place (rw written at m) (write_stops-In disk r roots)
  | inr skipped ↦ inr (write_stops-In disk r roots (rw skipped at m))
]
  where
    by_place :
        (r ≡ p) ⊎ In r (write_stops disk roots)
        → (In r (write_stops disk roots) → In r roots)
        → (r ≡ p) ⊎ In r roots
    by_place (inl here) later = inl here
    by_place (inr below) later = inr (later below)

write_stops-Distinct :
    (disk : Disk) (roots : List Text) → Distinct roots → Distinct (write_stops disk roots)
unfolding write_stops
write_stops-Distinct disk [] d = tt
write_stops-Distinct disk (p ∷ roots) (new, rest) =
    elim (Bool-cases (disk.is_dir p && disk.write_stop p)) [
      | inl written ↦
          rw written
            (λ m. new (write_stops-In disk p roots m), write_stops-Distinct disk roots rest)
      | inr skipped ↦ rw skipped (write_stops-Distinct disk roots rest)
    ]

if-Distinct :
    (c : Bool) (p : Text) (ps : List Text)
    → (In p ps → ⊥)
    → Distinct ps
    → Distinct (if c then p ∷ ps else ps)
if-Distinct true p ps new d = (new, d)
if-Distinct false p ps new d = d

-- `fanout_stop` writes at most one STOP at each root, however often the hub's files name it.
pub fanout_stop-Distinct :
    (disk : Disk) (hub : Text) (extra_roots : List Text)
    → Distinct (fanout_stop disk hub extra_roots)
unfolding fanout_stop contains
fanout_stop-Distinct disk hub extra_roots =
    let found = stream_worktrees_from_hub disk hub extra_roots in
    let here : contains hub (hub ∷ []) ≡ true =
      let same = (text_eq_iff hub hub).1 refl in ground arith in
    if-Distinct (disk.write_stop hub) hub (write_stops disk (unseen (hub ∷ []) found))
      (λ m. unseen-fresh hub (hub ∷ []) found here (write_stops-In disk hub _ m))
      (write_stops-Distinct disk _ (unseen-Distinct (hub ∷ []) found))

unlinked-length :
    (disk : Disk) (roots : List Text)
    → ((r : Text) → In r (write_stops disk roots) → disk.unlink_stop r ≡ true)
    → length (write_stops disk roots) ≤ unlink_stops disk roots
unfolding write_stops unlink_stops
unlinked-length disk [] gone = omega arith
unlinked-length disk (p ∷ roots) gone = elim (Bool-cases (disk.is_dir p && disk.write_stop p)) [
  | inl written ↦
      let gone' : (r : Text) → In r (p ∷ write_stops disk roots) → disk.unlink_stop r ≡ true =
        rw written at gone in
      let p_gone = gone' p (inl refl) in
      let rest = unlinked-length disk roots (λ r m. gone' r (inr m)) in
      rw (written, p_gone) (omega (arith, rest))
  | inr skipped ↦
      let rest = unlinked-length disk roots (rw skipped at gone) in
      rw skipped (counted (disk.unlink_stop p) rest)
]
  where
    counted :
        (c : Bool)
        → length (write_stops disk roots) ≤ unlink_stops disk roots
        → length (write_stops disk roots)
          ≤ (if c then suc (unlink_stops disk roots) else unlink_stops disk roots)
    counted true h = omega (arith, h)
    counted false h = h

if-first : (c : Bool) (p : Text) (ps : List Text) → c ≡ true → In p (if c then p ∷ ps else ps)
if-first true p ps e = inl refl
if-first false p ps e = cc e

if-later : (c : Bool) (p r : Text) (ps : List Text) → In r ps → In r (if c then p ∷ ps else ps)
if-later true p r ps m = inr m
if-later false p r ps m = m

if-length :
    (written gone : Bool) (p : Text) (ps : List Text) (n : ℕ)
    → (written ≡ true → gone ≡ true)
    → length ps ≤ n
    → length (if written then p ∷ ps else ps) ≤ (if gone then suc n else n)
if-length true true p ps n h le = omega (arith, le)
if-length true false p ps n h le = absurd (let e = h refl in cc e)
if-length false true p ps n h le = omega (arith, le)
if-length false false p ps n h le = omega (arith, le)

-- When the STOPs that `fanout_stop` wrote can be removed, `clear_fanout` with the same files removes at least as many.
pub clear_fanout-all :
    (disk : Disk) (hub : Text) (extra_roots : List Text)
    → ((r : Text) → In r (fanout_stop disk hub extra_roots) → disk.unlink_stop r ≡ true)
    → length (fanout_stop disk hub extra_roots) ≤ clear_fanout disk hub extra_roots
unfolding fanout_stop clear_fanout unlink_stops
clear_fanout-all disk hub extra_roots gone =
    let found = unseen (hub ∷ []) (stream_worktrees_from_hub disk hub extra_roots) in
    let ws = write_stops disk found in
    if-length (disk.write_stop hub) (disk.unlink_stop hub) hub ws (unlink_stops disk found)
      (λ e. gone hub (if-first (disk.write_stop hub) hub ws e))
      (unlinked-length disk found (λ r m. gone r (if-later (disk.write_stop hub) hub r ws m)))

-- ===== src/Supervisor/Turn/Keeps.antt =====
-- memory/supervisor.py: what a role turn leaves alone, and what it says of the handoff that it accepts.
use agentic_loop_template.Base.{
  ℕ, zero, suc, ◌+◌, ◌≤◌, ◌≡◌, refl, ap, ◌∙◌, Bool, true, false, inl, inr, List, [], ◌∷◌, Option,
  some, length, arith, ok, Result-cases,
}
use agentic_loop_template.Base.Text.{Text, text, text_eq}
use agentic_loop_template.Json.{
  Json, null, boolean, integer, float, string, array, object, Fields, get, upper_of, contains,
}
use agentic_loop_template.Handoff.{Problem, validate_handoff}
use agentic_loop_template.Supervisor.Turn.{
  Opening, ready, not_ready, failed, AdapterOutcome, raised, returned, Note, validation_note,
  rejected, proxy_not_ready, World, Config, Run, resolve_adapter_for_role, adapter_for, Attempt,
  accept, retry, give_up, escape, checked, call_adapter, attempt, role_turn,
}

-- The files and the log of accepted turns are as they were, and at most so many adapter calls were made.
pub record Kept (n : ℕ) (run run1 : Run) : Type 0 where
  pub store : run1.store ≡ run.store
  pub accepted : run1.accepted ≡ run.accepted
  pub calls : length run1.calls ≤ length run.calls + n

opened-Kept :
    (world : World) (cfg : Config) (r : Text) (run : Run) (known : Bool) (opening : Opening)
    → contains (resolve_adapter_for_role cfg r) run.opened ≡ known
    → world.open_adapter (length run.calls) (resolve_adapter_for_role cfg r) ≡ opening
    → Kept 0 run (adapter_for world cfg r run).1
unfolding adapter_for
opened-Kept world cfg r run true opening e o =
    rw e (record { store = refl; accepted = refl; calls = omega arith })
opened-Kept world cfg r run false ready e o =
    rw (e, o) (record { store = refl; accepted = refl; calls = omega arith })
opened-Kept world cfg r run false (not_ready why) e o =
    rw (e, o) (record { store = refl; accepted = refl; calls = omega arith })
opened-Kept world cfg r run false (failed c) e o =
    rw (e, o) (record { store = refl; accepted = refl; calls = omega arith })

pub adapter_for-Kept :
    (world : World) (cfg : Config) (r : Text) (run : Run)
    → Kept 0 run (adapter_for world cfg r run).1
adapter_for-Kept world cfg r run = opened-Kept world cfg r run _ _ refl refl

accepted_same :
    (fs fs' : Fields) (problems : List Problem)
    → elim problems as (λ _. Attempt) [
      | [] ↦ accept fs
      | p ∷ ps ↦ retry (some fs) (validation_note (p ∷ ps)) (rejected (p ∷ ps))
    ]
      ≡ accept fs'
    → fs ≡ fs'
accepted_same fs fs' [] h = cc h
accepted_same fs fs' (p ∷ ps) h = cc h

checked-same :
    (world : World) (v : Json) (fs : Fields) → checked world v ≡ accept fs → v ≡ object fs
unfolding checked
checked-same world (object fs') fs h = elim (Result-cases (upper_of (get (text "status") fs'))) [
  | inl (c, e) ↦ cc (rw (e, checked) at h)
  | inr (s, e) ↦ ap object (accepted_same fs' fs _ (rw (e, checked) at h))
]
checked-same world null fs h = cc h
checked-same world (boolean b) fs h = cc h
checked-same world (integer i) fs h = cc h
checked-same world (float x) fs h = cc h
checked-same world (string s) fs h = cc h
checked-same world (array vs) fs h = cc h

accepted_without :
    (fs : Fields) (problems : List Problem)
    → elim problems as (λ _. Attempt) [
      | [] ↦ accept fs
      | p ∷ ps ↦ retry (some fs) (validation_note (p ∷ ps)) (rejected (p ∷ ps))
    ]
      ≡ accept fs
    → problems ≡ []
accepted_without fs [] h = refl
accepted_without fs (p ∷ ps) h = cc h

-- An accepted handoff has no problem, with the strict checks if its status in capitals is DONE.
pub checked-valid :
    (world : World) (fs : Fields) (s : Text)
    → checked world (object fs) ≡ accept fs
    → upper_of (get (text "status") fs) ≡ ok s
    → validate_handoff world.schema (object fs) (text_eq s (text "DONE")) ≡ []
unfolding checked
checked-valid world fs s a e = accepted_without fs _ (rw (e, checked) at a)

-- A handoff that a turn accepts is one that `checked` accepts.
abbrev pub Accepts : World → Attempt → Type 0
Accepts world tried = (fs : Fields) → tried ≡ accept fs → checked world (object fs) ≡ accept fs

checked-Accepts : (world : World) (v : Json) → Accepts world (checked world v)
checked-Accepts world v fs h = rw (checked-same world v fs h) at h

-- What a turn that makes at most so many calls comes to.
abbrev pub Tried : World → ℕ → Run → Attempt × Run → Type 0
Tried world n run (tried, run1) = Kept n run run1 × Accepts world tried

called-Tried :
    (world : World) (r : Text) (handoff : Option Fields) (note : Note) (run : Run)
    (answer : AdapterOutcome)
    → world.run_role_turn (length run.calls) r handoff note ≡ answer
    → Tried world 1 run (call_adapter world r handoff note run)
unfolding call_adapter
called-Tried world r handoff note run (raised why) e =
    rw (e, call_adapter)
      (record { store = refl; accepted = refl; calls = omega arith }, λ fs h. cc h)
called-Tried world r handoff note run (returned v) e =
    rw (e, call_adapter)
      (record { store = refl; accepted = refl; calls = omega arith }, checked-Accepts world v)

Kept-trans : {m n k : ℕ} (a b c : Run) → m + n ≤ k → Kept m a b → Kept n b c → Kept k a c
Kept-trans a b c total ab bc = record {
  store = bc.store ∙ ab.store;
  accepted = bc.accepted ∙ ab.accepted;
  calls = omega (arith, ab.calls, bc.calls);
}

Kept-more : {m n : ℕ} (a b : Run) → m ≤ n → Kept m a b → Kept n a b
Kept-more a b more ab = record {
  store = ab.store;
  accepted = ab.accepted;
  calls = omega (arith, ab.calls);
}

attempt-Tried :
    (world : World) (cfg : Config) (r : Text) (handoff : Option Fields) (note : Note) (run : Run)
    → Tried world 1 run (attempt world cfg r handoff note run)
unfolding attempt
attempt-Tried world cfg r handoff note run =
    after_opening (adapter_for world cfg r run) (adapter_for-Kept world cfg r run)
  where
    after_opening :
        (opened : Opening × Run)
        → Kept 0 run opened.1
        → Tried world 1 run (
            let (opening, run1) = opened in
            elim opening as (λ _. Attempt × Run) [
              | ready ↦ call_adapter world r handoff note run1
              | not_ready why ↦ (give_up (proxy_not_ready why), run1)
              | failed c ↦ (escape c, run1)
            ])
    after_opening (ready, run1) k =
        let (called, accepts) = called-Tried world r handoff note run1 _ refl in
        (
          Kept-trans run run1 (call_adapter world r handoff note run1).1 (omega arith) k called,
          accepts,
        )
    after_opening (not_ready why, run1) k = (Kept-more run run1 (omega arith) k, λ fs h. cc h)
    after_opening (failed c, run1) k = (Kept-more run run1 (omega arith) k, λ fs h. cc h)

-- A role turn with so many retries left makes at most one call more than that, changes neither the state
-- nor the handoffs, and accepts only what `checked` accepts.
pub role_turn-Tried :
    (world : World) (cfg : Config) (r : Text) (left : ℕ) (handoff : Option Fields) (note : Note)
    (run : Run)
    → Tried world (suc left) run (role_turn world cfg r left handoff note run)
unfolding role_turn
role_turn-Tried world cfg r zero handoff note run =
    last_try (attempt world cfg r handoff note run) (attempt-Tried world cfg r handoff note run)
  where
    last_try :
        (tried : Attempt × Run)
        → Tried world 1 run tried
        → Tried world 1 run (
            let (one, run1) = tried in
            elim one as (λ _. Attempt × Run) [
              | retry h n why ↦ (give_up why, run1)
              | accept fs ↦ (accept fs, run1)
              | give_up why ↦ (give_up why, run1)
              | escape c ↦ (escape c, run1)
            ])
    last_try (retry h n why, run1) (k, a) = (k, λ fs e. cc e)
    last_try (accept fs, run1) t = t
    last_try (give_up why, run1) t = t
    last_try (escape c, run1) t = t
role_turn-Tried world cfg r (suc left) handoff note run =
    next_try (attempt world cfg r handoff note run) (attempt-Tried world cfg r handoff note run)
      (λ h n run1. role_turn-Tried world cfg r left h n run1)
  where
    next_try :
        (tried : Attempt × Run)
        → Tried world 1 run tried
        → ((h : Option Fields) (n : Note) (run1 : Run)
            → Tried world (suc left) run1 (role_turn world cfg r left h n run1))
        → Tried world (suc (suc left)) run (
            let (one, run1) = tried in
            elim one as (λ _. Attempt × Run) [
              | retry h n why ↦ role_turn world cfg r left h n run1
              | accept fs ↦ (accept fs, run1)
              | give_up why ↦ (give_up why, run1)
              | escape c ↦ (escape c, run1)
            ])
    next_try (retry h n why, run1) (k, a) later =
        let (k1, a1) = later h n run1 in
        (Kept-trans run run1 (role_turn world cfg r left h n run1).1 (omega arith) k k1, a1)
    next_try (accept fs, run1) (k, a) later = (Kept-more run run1 (omega arith) k, a)
    next_try (give_up why, run1) (k, a) later = (Kept-more run run1 (omega arith) k, a)
    next_try (escape c, run1) (k, a) later = (Kept-more run run1 (omega arith) k, a)

-- ===== src/Supervisor/Start/Outcomes.antt =====
-- memory/supervisor.py: from the checks before the first turn to the result of `run_loop`.
use agentic_loop_template.Base.{
  ℕ, suc, ◌*◌, ◌≤◌, ◌≡◌, refl, sym, ap, ◌∙◌, subst, ◌⊎◌, inl, inr, Bool, true, false, List, [], ◌∷◌,
  none, some, length, arith, Option-cases, Result, ok, err, Result-cases,
}
use agentic_loop_template.Base.Int.{pos, to_ℕ}
use agentic_loop_template.Base.Text.{Text}
use agentic_loop_template.Json.{Crash}
use agentic_loop_template.State.{LoopState, load_state, save_state}
use agentic_loop_template.Supervisor.Roles.{blocked, orchestrator}
use agentic_loop_template.Supervisor.Turn.{
  or_text, World, Config, Run, stack_check_failed, proxy_not_ready, Opening, ready, not_ready,
  failed, resolve_adapter_for_role, adapter_for,
}
use agentic_loop_template.Supervisor.Turn.Keeps.{Kept, adapter_for-Kept}
use agentic_loop_template.Supervisor.Loop.{Outcome, Vars, next_cycle, loop}
use agentic_loop_template.Supervisor.Loop.Runs.{
  Trail, begin, Looped, Ended, Looped-more, loop-Looped,
}
use agentic_loop_template.Supervisor.Start.{
  max_turns, start, resume, not_started, opened_start, checked_start, run_loop,
  should_start_new_cycle,
}

-- The role of the state file, which is the first turn's when no new cycle starts.
abbrev pub saved_role : World → Run → Text
saved_role world run =
    or_text (some (load_state world.too_large run.store).0.active_role) orchestrator

-- The checks before the first turn refused to start.
pub record Refused (world : World) (cfg : Config) (o : Outcome) : Type 0 where
  pub failed_check :
      world.stack_check ≡ none
      → world.assert_ready (resolve_adapter_for_role cfg orchestrator) ≡ none
      → ⊥
  pub is_blocked : o.terminal ≡ blocked
  pub code : o.exit_code ≡ pos 1

-- What a call of `run_loop` has done, when it returned or raised.
abbrev pub Ran : World → Config → Text → ℕ → Result Crash Outcome × Run → Type 0
Ran world cfg at n (ok o, run1) =
    (length run1.calls ≤ n)
    × (Refused world cfg o
        ⊎ ((first : Text) × ((first ≡ orchestrator) ⊎ (first ≡ at)) × Ended world first o run1))
Ran world cfg at n (err c, run1) = length run1.calls ≤ n

Looped-Ran :
    (world : World) (cfg : Config) (at first : Text) (n : ℕ) (x : Result Crash Outcome × Run)
    → (first ≡ orchestrator) ⊎ (first ≡ at)
    → Looped world first n x
    → Ran world cfg at n x
Looped-Ran world cfg at first n (ok o, run1) which (calls, e) = (calls, inr (first, which, e))
Looped-Ran world cfg at first n (err c, run1) which calls = calls

-- The bound on the adapter calls of one call of `run_loop`.
unfoldable pub max_calls : Config → ℕ
max_calls cfg = max_turns cfg * suc (to_ℕ cfg.max_role_retries)

started :
    (world : World) (cfg : Config) (first : Text) (vars : Vars) (run : Run)
    → Trail world first vars.role run.accepted
    → run.calls ≡ []
    → Looped world first (max_calls cfg) (loop world cfg (max_turns cfg) vars run)
unfolding max_calls
started world cfg first vars run trail no_calls =
    Looped-more world first (loop world cfg (max_turns cfg) vars run)
      (grind (arith, ap length no_calls))
      (loop-Looped world cfg first (max_turns cfg) vars run trail)

start-Ran :
    (world : World) (cfg : Config) (st : LoopState) (fresh : Bool) (run : Run)
    → run.accepted ≡ []
    → run.calls ≡ []
    → Ran world cfg
        (or_text (some st.active_role) orchestrator)
        (max_calls cfg)
        (start world cfg st fresh run)
unfolding start max_calls
start-Ran world cfg st true run no_log no_calls =
    let run1 : Run = record run { store = save_state world.too_large (next_cycle st) run.store } in
    let vars : Vars = record {
      role = orchestrator;
      handoff = none;
      turns = 0;
      pr_ready_count = 0;
    } in
    Looped-Ran world cfg _ orchestrator (max_calls cfg) (loop world cfg (max_turns cfg) vars run1)
      (inl refl)
      (started world cfg orchestrator vars run1
        (subst (Trail world orchestrator orchestrator) (sym no_log) begin) no_calls)
start-Ran world cfg st false run no_log no_calls =
    let at : Text = or_text (some st.active_role) orchestrator in
    let vars : Vars = record {
      role = at;
      handoff = run.last_handoff;
      turns = 0;
      pr_ready_count = 0;
    } in
    Looped-Ran world cfg at at (max_calls cfg) (loop world cfg (max_turns cfg) vars run) (inr refl)
      (started world cfg at vars run (subst (Trail world at at) (sym no_log) begin) no_calls)

resume-Ran :
    (world : World) (cfg : Config) (run : Run)
    → run.accepted ≡ []
    → run.calls ≡ []
    → Ran world cfg (saved_role world run) (max_calls cfg) (resume world cfg run)
unfolding resume
resume-Ran world cfg run no_log no_calls =
    let st = (load_state world.too_large run.store).0 in
    let run1 : Run = record run { store = (load_state world.too_large run.store).1 } in
    elim (Result-cases (should_start_new_cycle st run.last_handoff)) [
      | inl (c, e) ↦ rw (e, resume) (omega (arith, ap length no_calls))
      | inr (fresh, e) ↦ rw (e, resume) (start-Ran world cfg st fresh run1 no_log no_calls)
    ]

no_items : {A : Type 0} (xs : List A) → length xs ≤ 0 → xs ≡ []
no_items [] h = refl
no_items (x ∷ xs) h = absurd (omega (arith, h))

opened-Ran :
    (world : World) (cfg : Config) (run : Run) (opened : Opening × Run)
    → run.accepted ≡ []
    → run.calls ≡ []
    → Kept 0 run opened.1
    → Ran world cfg (saved_role world run) (max_calls cfg) (opened_start world cfg opened)
unfolding opened_start
opened-Ran world cfg run (ready, run1) no_log no_calls k = rw (← k.store) (
    resume-Ran world cfg run1 (k.accepted ∙ no_log)
      (no_items run1.calls (omega (arith, ap length no_calls, k.calls))))
opened-Ran world cfg run (not_ready why, run1) no_log no_calls k =
    omega (arith, ap length no_calls, k.calls)
opened-Ran world cfg run (failed c, run1) no_log no_calls k =
    omega (arith, ap length no_calls, k.calls)

module _ (world : World) (cfg : Config) (run : Run) where
  stack_failed :
      (why : Text)
      → world.stack_check ≡ some why
      → checked_start world cfg run ≡ (ok (not_started (stack_check_failed why)), run)
  unfolding checked_start
  stack_failed why e = rw e refl

  proxy_failed :
      (why : Text)
      → world.stack_check ≡ none
      → world.assert_ready (resolve_adapter_for_role cfg orchestrator) ≡ some why
      → checked_start world cfg run ≡ (ok (not_started (proxy_not_ready why)), run)
  unfolding checked_start not_started
  proxy_failed why no_error e = rw (no_error, e) refl

  checks_passed :
      world.stack_check ≡ none
      → world.assert_ready (resolve_adapter_for_role cfg orchestrator) ≡ none
      → checked_start world cfg run
        ≡ opened_start world cfg (adapter_for world cfg orchestrator run)
  unfolding checked_start opened_start
  checks_passed no_error all_ready = rw (no_error, all_ready) refl

checked_start-Ran :
    (world : World) (cfg : Config) (run : Run)
    → run.accepted ≡ []
    → run.calls ≡ []
    → Ran world cfg (saved_role world run) (max_calls cfg) (checked_start world cfg run)
unfolding not_started
checked_start-Ran world cfg run no_log no_calls = elim (Option-cases world.stack_check) [
  | inr (why, e) ↦
      subst (Ran world cfg (saved_role world run) (max_calls cfg))
        (sym (stack_failed world cfg run why e))
        (
          omega (arith, ap length no_calls),
          inl (record {
            failed_check = λ none_found _. cc (e, none_found);
            is_blocked = refl;
            code = refl;
          }),
        )
  | inl no_error ↦
      elim (Option-cases (world.assert_ready (resolve_adapter_for_role cfg orchestrator))) [
        | inr (why, e) ↦
            subst (Ran world cfg (saved_role world run) (max_calls cfg))
              (sym (proxy_failed world cfg run why no_error e))
              (
                omega (arith, ap length no_calls),
                inl (record {
                  failed_check = λ _ all_ready. cc (e, all_ready);
                  is_blocked = refl;
                  code = refl;
                }),
              )
        | inl all_ready ↦
            subst (Ran world cfg (saved_role world run) (max_calls cfg))
              (sym (checks_passed world cfg run no_error all_ready))
              (opened-Ran world cfg run (adapter_for world cfg orchestrator run) no_log no_calls
                (adapter_for-Kept world cfg orchestrator run))
      ]
]

pub run_loop-Ran :
    (world : World) (cfg : Config) (run : Run)
    → Ran world cfg (saved_role world run) (max_calls cfg) (run_loop world cfg run)
unfolding run_loop
run_loop-Ran world cfg run =
    checked_start-Ran world cfg (record run { opened = []; calls = []; accepted = [] }) refl refl

-- ===== src/Supervisor/Start.antt =====
-- memory/supervisor.py: how `run_loop` starts: the checks before the first turn, and whether a new cycle begins.
pub mod Results
pub mod Outcomes
pub mod Promises
use agentic_loop_template.Base.{
  ℕ, zero, suc, Bool, true, false, not, ◌&&◌, ◌||◌, List, [], ◌∷◌, ◌++◌, Option, none, some, length,
  if◌then◌else◌, Result, ok, err, ◌>>=◌,
}
use agentic_loop_template.Base.Int.{ℤ, pos, negsuc, leb_ℤ, max_ℤ, ◌*ℤ◌, to_ℕ, succ_ℤ, eq_ℤ}
use agentic_loop_template.Base.Text.{Text, text, is_empty, text_eq, upper}
use agentic_loop_template.Json.{
  Json, string, Fields, Crash, proxy_error, get, get_or, upper_of, contains, text_set,
}
use agentic_loop_template.State.{
  LoopState, Store, load_state, read_state, save_state, update_state, append_delta,
}
use agentic_loop_template.Supervisor.Roles.{
  Terminal, pr_ready, pr_ready_local, blocked, stopped_limit, stopped, value, Next, role, terminal,
  orchestrator, next_role, exit_code_for,
}
use agentic_loop_template.Supervisor.Turn.{
  Opening, ready, not_ready, failed, no_note, Gh, no_gh, exited, Reason, no_reason,
  stack_check_failed, proxy_not_ready, policy_tags, World, Config, Run, or_text,
  resolve_adapter_for_role, adapter_for, Attempt, accept, retry, give_up, escape, role_turn,
}
use agentic_loop_template.Supervisor.Loop.{Outcome, loop, next_cycle}

-- `_TERMINAL_STATE_STATUSES`
abbrev pub terminal_statuses : List Text
terminal_statuses =
    text "PR_READY" ∷ text "PR_READY_LOCAL" ∷ text "STOPPED_LIMIT" ∷ text "DONE" ∷ []

handoff_status : Option Fields → Result Crash Text
handoff_status none = ok []
handoff_status (some fs) = upper_of (get (text "status") fs)

unfoldable pub should_start_new_cycle : LoopState → Option Fields → Result Crash Bool
unfolding handoff_status
should_start_new_cycle st handoff = handoff_status handoff >>= λ status.
    ok (text_eq status (text "DONE") || contains (upper st.status) terminal_statuses)

-- `max_turns`
unfoldable pub max_turns : Config → ℕ
max_turns cfg = to_ℕ (max_ℤ cfg.max_turns_floor (cfg.max_cycles *ℤ cfg.max_turns_factor))

-- The loop from the state and the handoff that were loaded.
unfoldable pub start : World → Config → LoopState → Bool → Run → Result Crash Outcome × Run
start world cfg st fresh run =
    if fresh
    then loop world cfg (max_turns cfg)
        (record { role = orchestrator; handoff = none; turns = 0; pr_ready_count = 0 })
        (record run { store = save_state world.too_large (next_cycle st) run.store })
    else loop world cfg (max_turns cfg)
        (record {
          role = or_text (some st.active_role) orchestrator;
          handoff = run.last_handoff;
          turns = 0;
          pr_ready_count = 0;
        })
        run

unfoldable pub not_started : Reason → Outcome
not_started why = record {
  terminal = blocked;
  exit_code = pos 1;
  role = orchestrator;
  turns = none;
  reason = why;
}

unfoldable pub resume : World → Config → Run → Result Crash Outcome × Run
resume world cfg run =
    let (st, store) = load_state world.too_large run.store in
    let run1 = record run { store = store } in
    elim (should_start_new_cycle st run.last_handoff) [
      | err c ↦ (err c, run1)
      | ok fresh ↦ start world cfg st fresh run1
    ]

-- The first adapter is opened outside of the handlers of the loop.
unfoldable pub opened_start : World → Config → Opening × Run → Result Crash Outcome × Run
opened_start world cfg (ready, run) = resume world cfg run
opened_start world cfg (not_ready why, run) = (err proxy_error, run)
opened_start world cfg (failed c, run) = (err c, run)

-- The checks before the first turn.
unfoldable pub checked_start : World → Config → Run → Result Crash Outcome × Run
checked_start world cfg run = elim world.stack_check [
  | some why ↦ (ok (not_started (stack_check_failed why)), run)
  | none ↦ elim (world.assert_ready (resolve_adapter_for_role cfg orchestrator)) [
    | some why ↦ (ok (not_started (proxy_not_ready why)), run)
    | none ↦ opened_start world cfg (adapter_for world cfg orchestrator run)
  ]
]

-- A call of `run_loop` starts with no adapter opened, and with empty logs.
unfoldable pub run_loop : World → Config → Run → Result Crash Outcome × Run
run_loop world cfg run =
    checked_start world cfg (record run { opened = []; calls = []; accepted = [] })

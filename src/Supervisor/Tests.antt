-- ===== src/Supervisor/Tests.antt =====
-- Runs of the role loop on concrete worlds.
use agentic_loop_template.Base.{
  ◌≡◌, ◌≤◌, refl, ap, ◌⊎◌, inl, inr, ◌↔◌, true, false, List, [], ◌∷◌, none, some, length,
  if◌then◌else◌, Bool-cases, ok,
}
use agentic_loop_template.Base.Int.{pos}
use agentic_loop_template.Base.Text.{Text, text, text_eq, text_eq_iff, upper}
use agentic_loop_template.Json.{
  Json, null, boolean, integer, float, string, array, object, Fields, end, field, get, get_or,
  truthy, upper_of, equals_text, is_null, is_dict, contains, in_set, text_set,
}
use agentic_loop_template.Handoff.{Schema, when, is_verified, done_extras, validate_handoff}
use agentic_loop_template.State.{
  missing, capped, trimmed, overflow, save_state, read_state, update_state, load_state, new_delta,
  with_delta, append_delta,
}
use agentic_loop_template.Supervisor.Roles.{
  pr_ready, value, role, terminal, coder, tester, reviewer, allowed_handoff, default_chain,
  int_or_zero, tests_failed, follow, after_tester, next_role, exit_code_for,
}
use agentic_loop_template.Supervisor.Roles.Edges.{next_role-allowed, next_role-pr_ready}
use agentic_loop_template.Supervisor.Turn.{
  ready, returned, exited, no_reason, World, Config, Run, or_text, resolve_adapter_for_role,
  adapter_for, checked, call_adapter, attempt, role_turn,
}
use agentic_loop_template.Supervisor.Loop.{
  Outcome, save, block, end_with, maybe_create_pr, complete, store_handoff, intersects, log_delta,
  log_metrics, follow_next, after_turn, round, loop,
}
use agentic_loop_template.Supervisor.Loop.Shapes.{status_of}
use agentic_loop_template.Supervisor.Start.{
  should_start_new_cycle, max_turns, start, resume, opened_start, checked_start, run_loop,
}
use agentic_loop_template.Supervisor.Start.Results.{Reviewed}
use agentic_loop_template.Supervisor.Start.Outcomes.{saved_role, max_calls}
use agentic_loop_template.Supervisor.Start.Promises.{
  run_loop-calls, run_loop-exit_code, run_loop-status, run_loop-Reviewed,
}

-- A schema that checks the status only.
status_messages : Json → List Text
status_messages (string s) =
    if text_eq s (text "IN_PROGRESS")
    then []
    else if text_eq s (text "BLOCKED")
    then []
    else if text_eq s (text "DONE")
    then []
    else text "not one of the enum" ∷ []
status_messages v = text "not a string" ∷ []

status_schema : Schema
unfolding status_messages
status_schema (object fs) = status_messages (get (text "status") fs)
status_schema v = text "not an object" ∷ []

status_messages-enum :
    (v : Json)
    → status_messages v ≡ []
    → (v ≡ string (text "IN_PROGRESS")) ⊎ (v ≡ string (text "BLOCKED")) ⊎ (v ≡ string (text "DONE"))
unfolding status_messages
status_messages-enum (string s) h = elim (Bool-cases (text_eq s (text "IN_PROGRESS"))) [
  | inl e ↦ inl (ap string ((text_eq_iff s (text "IN_PROGRESS")).0 e))
  | inr not_progress ↦ elim (Bool-cases (text_eq s (text "BLOCKED"))) [
    | inl e ↦ inr (inl (ap string ((text_eq_iff s (text "BLOCKED")).0 e)))
    | inr not_blocked ↦ elim (Bool-cases (text_eq s (text "DONE"))) [
      | inl e ↦ inr (inr (ap string ((text_eq_iff s (text "DONE")).0 e)))
      | inr not_done ↦ cc (rw (not_progress, not_blocked, not_done) at h)
    ]
  ]
]
status_messages-enum null h = cc h
status_messages-enum (boolean b) h = cc h
status_messages-enum (integer n) h = cc h
status_messages-enum (float x) h = cc h
status_messages-enum (array vs) h = cc h
status_messages-enum (object fs) h = cc h

-- The handoffs of an adapter that works through a cycle.
abbrev going_on : Fields
going_on = field (text "status") (string (text "IN_PROGRESS")) (
    field (text "metrics") (object (field (text "tests_failed") (integer (pos 0)) end))
      (field (text "summary") (string (text "ok")) end))

abbrev all_done : Fields
all_done = field (text "status") (string (text "DONE")) (
    field (text "handoff_to") (string (text "None")) (
      field (text "sync_waived") (string (text "offline")) (
        field (text "distillation_performed") (boolean true)
          (field (text "metrics") (object end) end))))

abbrev world : World
world = record {
  schema = status_schema;
  parse_int = λ s. none;
  too_large = λ st. false;
  now = λ n. text "12:00";
  stop_file = λ n. false;
  assert_ready = λ name. none;
  open_adapter = λ n name. ready;
  run_role_turn =
      λ n r handoff note. returned (object (if text_eq r reviewer then all_done else going_on));
  gh = λ n. exited (pos 0);
  stack_check = none;
  reason_text = λ why. text "reason";
  format = λ v. text "value";
}

abbrev config : Config
config = record {
  cli_adapter = none;
  adapters_by_role = [];
  adapter = none;
  max_cycles = pos 1;
  max_role_retries = pos 2;
  max_turns_floor = pos 6;
  max_turns_factor = pos 2;
  block_process_tags = text "secret" ∷ [];
  create_pr = true;
}

abbrev fresh_run : Run
fresh_run = record {
  store = record { file = missing; history = [] };
  last_handoff = none;
  opened = [];
  metrics = [];
  calls = [];
  accepted = [];
}

abbrev pr_outcome : Outcome
pr_outcome = record {
  terminal = pr_ready;
  exit_code = pos 0;
  role = reviewer;
  turns = some 4;
  reason = no_reason;
}

-- The cycle ends in PR_READY after four turns.
cycle_returns :
    run_loop world config fresh_run ≡ (ok pr_outcome, (run_loop world config fresh_run).1)
unfolding status_schema get get_or truthy upper_of upper equals_text is_null is_dict contains in_set
    text_set text_eq when is_verified done_extras validate_handoff capped trimmed overflow
    save_state read_state update_state load_state new_delta with_delta append_delta value
    allowed_handoff default_chain int_or_zero tests_failed follow after_tester next_role
    exit_code_for or_text resolve_adapter_for_role adapter_for checked call_adapter attempt
    role_turn save block end_with maybe_create_pr complete store_handoff intersects log_delta
    log_metrics follow_next after_turn round loop should_start_new_cycle max_turns start resume
    opened_start checked_start run_loop
cycle_returns = refl

run_loop-Reviewed_example :
    Reviewed world (saved_role world fresh_run) (run_loop world config fresh_run).1
unfolding status_schema
run_loop-Reviewed_example =
    run_loop-Reviewed world config fresh_run (run_loop world config fresh_run).1 pr_outcome
      (λ fs no_message. status_messages-enum (get (text "status") fs) no_message) cycle_returns refl

run_loop-status_example : status_of (run_loop world config fresh_run).1 ≡ value pr_ready
run_loop-status_example =
    run_loop-status world config fresh_run (run_loop world config fresh_run).1 pr_outcome refl refl
      cycle_returns

run_loop-exit_code_example : pos 0 ≡ exit_code_for pr_ready
run_loop-exit_code_example =
    run_loop-exit_code world config fresh_run (run_loop world config fresh_run).1 pr_outcome
      cycle_returns

run_loop-calls_example : length (run_loop world config fresh_run).1.calls ≤ max_calls config
run_loop-calls_example = run_loop-calls world config fresh_run

coder_hands_over : next_role (λ s. none) coder going_on ≡ ok (role tester)
unfolding next_role get get_or upper_of upper follow in_set contains allowed_handoff default_chain
    text_eq
coder_hands_over = refl

next_role-allowed_example : contains tester (allowed_handoff coder) ≡ true
next_role-allowed_example = next_role-allowed (λ s. none) coder going_on tester coder_hands_over

next_role-pr_ready_example :
    (next_role (λ s. none) reviewer all_done ≡ ok (terminal pr_ready))
    ↔ ((reviewer ≡ reviewer) × (upper_of (get (text "status") all_done) ≡ ok (text "DONE")))
next_role-pr_ready_example = next_role-pr_ready (λ s. none) reviewer all_done

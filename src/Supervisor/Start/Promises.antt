-- ===== src/Supervisor/Start/Promises.antt =====
-- memory/supervisor.py: what `run_loop` promises of its result.
use agentic_loop_template.Base.{
  ◌≤◌, ◌≡◌, sym, ap, ◌∙◌, subst, ◌⊎◌, inl, inr, List, [], ◌∷◌, none, length, Result, ok, err,
}
use agentic_loop_template.Base.Int.{pos}
use agentic_loop_template.Base.Text.{Text}
use agentic_loop_template.Json.{Fields, Crash}
use agentic_loop_template.Supervisor.Roles.{value, orchestrator, exit_code_for}
use agentic_loop_template.Supervisor.Turn.{World, Config, Run, resolve_adapter_for_role}
use agentic_loop_template.Supervisor.Loop.{Outcome}
use agentic_loop_template.Supervisor.Loop.Shapes.{status_of}
use agentic_loop_template.Supervisor.Loop.Runs.{Ended}
use agentic_loop_template.Supervisor.Start.{run_loop}
use agentic_loop_template.Supervisor.Start.Results.{
  Reviewed, ChecksStatus, Tested, run-Succeeded, orchestrator_not_reviewer,
}
use agentic_loop_template.Supervisor.Start.Outcomes.{
  saved_role, Refused, Ran, max_calls, run_loop-Ran,
}

-- A call of `run_loop`, whether it returns or raises, has called adapters at most as often as there are turns, times one more
-- than there are retries: `max(max_turns_floor, max_cycles * max_turns_factor) * (1 + max(0, max_role_retries))`.
pub run_loop-calls :
    (world : World) (cfg : Config) (run : Run)
    → length (run_loop world cfg run).1.calls ≤ max_calls cfg
run_loop-calls world cfg run = calls_of (run_loop world cfg run) (run_loop-Ran world cfg run)
  where
    calls_of :
        (x : Result Crash Outcome × Run)
        → Ran world cfg (saved_role world run) (max_calls cfg) x
        → length x.1.calls ≤ max_calls cfg
    calls_of (ok o, run1) (calls, e) = calls
    calls_of (err c, run1) calls = calls

-- A run that began at the Orchestrator has a turn before its Reviewer's, so the same holds from any first role.
Tested-from :
    (world : World) (first at : Text) (log : List (Text × Fields))
    → (first ≡ orchestrator) ⊎ (first ≡ at)
    → Tested world first log
    → Tested world at log
Tested-from world first at [] (inl fresh) t = absurd (orchestrator_not_reviewer (sym fresh ∙ t))
Tested-from world first at [] (inr same) t = sym same ∙ t
Tested-from world first at (turn ∷ log) which t = t

from_saved_role :
    (world : World) (first at : Text) (run1 : Run)
    → (first ≡ orchestrator) ⊎ (first ≡ at)
    → Reviewed world first run1
    → Reviewed world at run1
from_saved_role world first at run1 which r = record {
  handoff = r.handoff;
  earlier = r.earlier;
  last_turn = r.last_turn;
  done = r.done;
  accepted = r.accepted;
  evidence = r.evidence;
  tested = Tested-from world first at r.earlier which r.tested;
}

-- The run that returned, as an end of the loop or a refusal to start.
run_end :
    (world : World) (cfg : Config) (run run1 : Run) (o : Outcome)
    → run_loop world cfg run ≡ (ok o, run1)
    → Refused world cfg o
      ⊎ ((first : Text) × ((first ≡ orchestrator) ⊎ (first ≡ saved_role world run))
          × Ended world first o run1)
run_end world cfg run run1 o e =
    let (calls, how) : Ran world cfg (saved_role world run) (max_calls cfg) (ok o, run1) =
      subst (Ran world cfg (saved_role world run) (max_calls cfg)) e (run_loop-Ran world cfg run) in
    how

-- The exit code of a result is the one of its terminal.
pub run_loop-exit_code :
    (world : World) (cfg : Config) (run run1 : Run) (o : Outcome)
    → run_loop world cfg run ≡ (ok o, run1)
    → o.exit_code ≡ exit_code_for o.terminal
unfolding exit_code_for
run_loop-exit_code world cfg run run1 o e = elim (run_end world cfg run run1 o e) [
  | inl refused ↦ refused.code ∙ sym (ap exit_code_for refused.is_blocked)
  | inr (first, which, ended) ↦ ended.result.code
]

-- When the checks before the first turn pass, the terminal of a result is the status that the state file is left with.
pub run_loop-status :
    (world : World) (cfg : Config) (run run1 : Run) (o : Outcome)
    → world.stack_check ≡ none
    → world.assert_ready (resolve_adapter_for_role cfg orchestrator) ≡ none
    → run_loop world cfg run ≡ (ok o, run1)
    → status_of run1 ≡ value o.terminal
run_loop-status world cfg run run1 o no_error all_ready e = elim (run_end world cfg run run1 o e) [
  | inl refused ↦ absurd (refused.failed_check no_error all_ready)
  | inr (first, which, ended) ↦ ended.result.saved
]

-- A result with exit code 0 comes from a Reviewer's turn whose handoff has the status DONE, is one in which `validate_handoff`
-- finds no problem, and carries the evidence that is asked of one; the turn before it was a Tester's whose metrics name no
-- failed test (a count that is absent or does not read as a number names none), unless the run began at the Reviewer that
-- the state file names. The schema is taken to check the status.
pub run_loop-Reviewed :
    (world : World) (cfg : Config) (run run1 : Run) (o : Outcome)
    → ChecksStatus world
    → run_loop world cfg run ≡ (ok o, run1)
    → o.exit_code ≡ pos 0
    → Reviewed world (saved_role world run) run1
run_loop-Reviewed world cfg run run1 o enum e zero_code = elim (run_end world cfg run run1 o e) [
  | inl refused ↦ cc (refused.code, zero_code)
  | inr (first, which, ended) ↦
      let reviewed =
        run-Succeeded world first ended.last_role ended.log run1 enum ended.trail
          (ended.result.success zero_code) in
      from_saved_role world first (saved_role world run) run1 which reviewed
]

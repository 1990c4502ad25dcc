-- ===== src/Parallel/Run.antt =====
-- memory/supervisor_parallel.py: `run_parallel`.
use agentic_loop_template.Base.{
  Bool, true, false, List, [], ◌∷◌, Option, none, some, length, take, if◌then◌else◌, Result, ok,
  err,
}
use agentic_loop_template.Base.Int.{ℤ, pos}
use agentic_loop_template.Base.Text.{Text, text}
use agentic_loop_template.Json.{
  integer, float, finite, string, array, object, nil, cons, Fields, end, field,
}
use agentic_loop_template.Errors.{ValueError}
use agentic_loop_template.Handoff.{Problem, validate_handoff}
use agentic_loop_template.Streams.Plans.{StreamPlan, validate_stream_plans}
use agentic_loop_template.Supervisor.Roles.{Terminal, pr_ready_local, value}
use agentic_loop_template.Supervisor.Roles
use agentic_loop_template.Supervisor.Loop.{maybe_create_pr}
use agentic_loop_template.Parallel.Hub.{
  Hub, HubWorld, Options, Escape, invalid_plans, HubReason, done_rejected, Results, tick,
  release_all,
}
use agentic_loop_template.Parallel.Stream.{is_pr_ready}
use agentic_loop_template.Parallel.Phases.{
  Phase, go, halt, escape, ◌>>>◌, each, claim_one, provision, has_worktree, fan_out, ticked,
  run_streams, push_one, integrate, merge_one, push_integration, if_pushing,
}

-- The dict that `run_parallel` returns.
pub record HubOutcome : Type 0 where
  pub terminal : Terminal
  pub exit_code : ℤ
  pub reason : Option HubReason
  pub streams : Results
  pub concurrent : Bool
  pub push : Bool
  pub integration_branch : Option Text
  pub integration_worktree : Option Text

names_of : Results → List Text
names_of [] = []
names_of ((name, r) ∷ rs) = name ∷ names_of rs

-- `done`
unfoldable pub done_handoff : HubWorld → Options → Results → Fields
unfolding names_of
done_handoff world opts rs = field (text "handoff_to") (string (text "None")) (
    field (text "role") (string (text "Reviewer")) (
      field (text "current_phase") (string (text "finalization")) (
        field (text "cycle_number") (integer (pos 0)) (
          field (text "summary")
            (string (take 800 (world.summary opts.integration_branch (names_of rs))))
            (field (text "context_delta") (string (text "integration merged")) (
              field (text "status") (string (text "DONE")) (
                field (text "confidence") (float (finite (pos 0) false)) (
                  field (text "lessons_learned")
                    (array (cons (string (text "parallel streams")) nil))
                    (field (text "metrics")
                      (object (
                        field (text "tests_total") (integer (pos (length rs))) (
                          field (text "tests_failed") (integer (pos 0))
                            (field (text "tool_calls") (integer (pos 0)) end))))
                      (field (text "sync_waived") (string (text "integration PR path")) (
                        field (text "process_tags")
                          (array (cons (string (text "parallel_integration")) nil))
                          (field (text "stream") (string (text "cross")) (
                            field (text "merge_gate") (string (text "after-tests-green"))
                              end)))))))))))))

unfoldable pub final_terminal : HubWorld → Options → Terminal
final_terminal world opts = if opts.create_pr then maybe_create_pr world.gh else pr_ready_local

unfoldable pub outcome_of : Options → Terminal → Hub → HubOutcome
outcome_of opts term hub = record {
  terminal = term;
  exit_code = if is_pr_ready term then pos 0 else pos 1;
  reason = none;
  streams = hub.results;
  concurrent = opts.concurrent;
  push = opts.push;
  integration_branch = some opts.integration_branch;
  integration_worktree = hub.integration_workdir;
}

-- The DONE handoff, checked, is saved.
unfoldable pub saved_done :
    Options → Terminal → Fields → List Problem → Hub → Phase HubOutcome × Hub
saved_done opts term handoff [] hub =
    (go (outcome_of opts term hub), record hub { last_handoff = some handoff })
saved_done opts term handoff (p ∷ ps) hub = (halt (done_rejected (p ∷ ps)), hub)

unfoldable pub finish : HubWorld → Options → Hub → Phase HubOutcome × Hub
finish world opts hub =
    let term = final_terminal world opts in
    let hub1 = tick world opts (value term) hub in
    let handoff = done_handoff world opts hub1.results in
    saved_done opts term handoff (validate_handoff world.schema (object handoff) true) hub1

-- The branches of the streams, once every stream has passed.
unfoldable pub integration : HubWorld → Options → List StreamPlan → Hub → Phase HubOutcome × Hub
integration world opts plans hub = if_pushing opts (each (push_one world) plans) hub >>> λ u hub1.
    integrate world opts hub1 >>> λ wt hub2. each (merge_one world opts wt) plans hub2 >>> λ u hub3.
    if_pushing opts (push_integration world opts wt) hub3 >>> λ u hub4. finish world opts hub4

-- The streams, in their worktrees.
unfoldable pub stream_phase : HubWorld → Options → List StreamPlan → Hub → Phase (Unit {0}) × Hub
stream_phase world opts plans hub = each has_worktree plans hub >>> λ u hub1.
    each fan_out plans hub1 >>> λ u hub2.
    ticked world opts (text "IN_PROGRESS") hub2 >>> λ u hub3. run_streams world opts plans hub3

unfoldable pub phases : HubWorld → Options → List StreamPlan → Hub → Phase HubOutcome × Hub
phases world opts plans hub = each (claim_one world opts) plans hub >>> λ u hub1.
    provision world opts plans hub1 >>> λ ready hub2.
    stream_phase world opts ready hub2 >>> λ u hub3. integration world opts ready hub3

-- `_fail_blocked`
unfoldable pub blocked_outcome : Options → HubReason → Hub → HubOutcome
blocked_outcome opts why hub = record {
  terminal = Roles.blocked;
  exit_code = pos 1;
  reason = some why;
  streams = hub.results;
  concurrent = opts.concurrent;
  push = opts.push;
  integration_branch = none;
  integration_worktree = hub.integration_workdir;
}

unfoldable pub returned :
    HubWorld → Options → Phase HubOutcome × Hub → Result Escape HubOutcome × Hub
returned world opts (go o, hub) = (ok o, hub)
returned world opts (escape e, hub) = (err e, hub)
returned world opts (halt why, hub) =
    let hub1 = tick world opts (text "BLOCKED") hub in (ok (blocked_outcome opts why hub1), hub1)

-- `try ... finally`
unfoldable pub released_after :
    HubWorld → Result Escape HubOutcome × Hub → Result Escape HubOutcome × Hub
released_after world (r, hub) = (r, release_all world hub.claimed hub)

-- The variables of a call start afresh.
unfoldable pub fresh : Hub → Hub
fresh hub = record hub { results = []; claimed = []; integration_workdir = none; log = [] }

unfoldable pub run_valid :
    HubWorld
    → Options
    → List StreamPlan
    → Result ValueError (Unit {0})
    → Hub
    → Result Escape HubOutcome × Hub
run_valid world opts plans (err e) hub = (err (invalid_plans e), hub)
run_valid world opts plans (ok u) hub =
    released_after world (returned world opts (phases world opts plans hub))

unfoldable pub run_parallel :
    HubWorld → Options → List StreamPlan → Hub → Result Escape HubOutcome × Hub
run_parallel world opts plans hub =
    run_valid world opts plans (validate_stream_plans plans) (fresh hub)

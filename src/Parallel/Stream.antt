-- ===== src/Parallel/Stream.antt =====
-- memory/supervisor_parallel.py: the work on one stream.
use agentic_loop_template.Base.{
  Bool, true, false, List, [], ◌∷◌, Option, none, some, if◌then◌else◌, Result, ok, err,
}
use agentic_loop_template.Base.Text.{Text, is_empty}
use agentic_loop_template.Json.{Crash}
use agentic_loop_template.Errors.{ValueError}
use agentic_loop_template.Streams.Gate.{check_owned_paths_gate}
use agentic_loop_template.Streams.Plans.{StreamPlan, StreamStatus, blocked, stream_ready, running}
use agentic_loop_template.Supervisor.Roles.{
  Terminal, pr_ready, pr_ready_local, stopped_limit, stopped,
}
use agentic_loop_template.Supervisor.Roles
use agentic_loop_template.Streams.Plans
use agentic_loop_template.Supervisor.Turn.{Config}
use agentic_loop_template.Supervisor.Loop.{Outcome}
use agentic_loop_template.Supervisor.Start.{run_loop}
use agentic_loop_template.Parallel.Hub.{
  HubWorld, Options, StreamResult, StreamError, loop_crash, gate_error, Detail, no_worktree,
  fanned_out, loop_ended, owned_paths_violated, raised, passed, StreamReason, no_worktree_of,
  owned_paths_in, stream_terminal, stream_failed, stream_blocked,
}

-- An optional string that is None or empty is false.
unfoldable pub text_or_empty : Option Text → Text
text_or_empty none = []
text_or_empty (some s) = s

unfoldable pub new_result : StreamStatus → Detail → StreamResult
new_result s d = record { status = s; detail = d; push_error = none; merge_error = none }

-- PR_READY or PR_READY_LOCAL
unfoldable pub is_pr_ready : Terminal → Bool
is_pr_ready pr_ready = true
is_pr_ready pr_ready_local = true
is_pr_ready Roles.blocked = false
is_pr_ready stopped_limit = false
is_pr_ready stopped = false

-- The configuration of a stream's loop: its own, with the arguments of the call; no PR of its own.
unfoldable pub config_of : HubWorld → Options → StreamPlan → Config
config_of world opts plan = record (world.stream_config plan.name) {
  cli_adapter = some opts.adapter_name;
  max_cycles = opts.max_cycles_per_stream;
  create_pr = false;
}

-- `violations`
unfoldable pub violations_of : HubWorld → Options → StreamPlan → Result ValueError (List Text)
violations_of world opts plan =
    if opts.require_owned_paths
    then check_owned_paths_gate (world.stream_git plan.name) plan.owned_paths opts.base_ref
    else ok []

-- After the loop: its terminal, then the gate.
unfoldable pub gated :
    StreamPlan → Outcome → Result ValueError (List Text) → Result StreamError StreamResult
gated plan o (err e) = err (gate_error e)
gated plan o (ok []) =
    ok (new_result stream_ready (passed o (text_or_empty plan.worktree) plan.branch))
gated plan o (ok (v ∷ vs)) =
    ok (new_result blocked (owned_paths_violated (v ∷ vs) (text_or_empty plan.worktree)))

unfoldable pub after_loop :
    HubWorld → Options → StreamPlan → Result Crash Outcome → Result StreamError StreamResult
after_loop world opts plan (err c) = err (loop_crash c)
after_loop world opts plan (ok o) =
    if is_pr_ready o.terminal
    then gated plan o (violations_of world opts plan)
    else ok (new_result blocked (loop_ended o (text_or_empty plan.worktree)))

-- `_run_one_stream`
unfoldable pub run_one_stream : HubWorld → Options → StreamPlan → Result StreamError StreamResult
run_one_stream world opts plan =
    if is_empty (text_or_empty plan.worktree)
    then ok (new_result blocked no_worktree)
    else after_loop world opts plan
        (run_loop (world.stream_world plan.name) (config_of world opts plan)
          (world.stream_run plan.name)).0

-- `_worker`: an exception is a BLOCKED record.
unfoldable pub or_blocked : StreamPlan → Result StreamError StreamResult → StreamResult
or_blocked plan (ok r) = r
or_blocked plan (err e) = new_result blocked (raised e (text_or_empty plan.worktree))

unfoldable pub worker : HubWorld → Options → StreamPlan → StreamResult
worker world opts plan = or_blocked plan (run_one_stream world opts plan)

unfoldable pub is_blocked : StreamStatus → Bool
is_blocked blocked = true
is_blocked stream_ready = false
is_blocked Plans.merged = false
is_blocked running = false
is_blocked Plans.pending = false

-- `_blocked_outer_reason`
unfoldable pub outer_reason : Text → Detail → StreamReason
outer_reason name (owned_paths_violated vs wt) = owned_paths_in name vs
outer_reason name (loop_ended o wt) = stream_terminal name o.terminal
outer_reason name (passed o wt branch) = stream_terminal name o.terminal
outer_reason name no_worktree = no_worktree_of name
outer_reason name (raised e wt) = stream_failed name e
outer_reason name (fanned_out wt branch) = stream_blocked name

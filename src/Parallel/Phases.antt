-- ===== src/Parallel/Phases.antt =====
-- memory/supervisor_parallel.py: the phases of `run_parallel`. A phase goes on with a value, halts with the
-- reason of a BLOCKED result, or lets an exception out.
use agentic_loop_template.Base.{
  Bool, true, false, ◌||◌, List, [], ◌∷◌, ◌++◌, some, if◌then◌else◌, Result, ok, err,
}
use agentic_loop_template.Base.Text.{Text, text, is_empty}
use agentic_loop_template.Errors.{ValueError}
use agentic_loop_template.Lease.Registry.{ClaimArgs}
use agentic_loop_template.Lease.Requests.{Reply, claim_lease}
use agentic_loop_template.Streams.Plans.{StreamPlan, blocked, running, merged}
use agentic_loop_template.Streams.Provision.{ProvisionError, provision_stream_worktrees}
use agentic_loop_template.StreamGit.{Log, push_branch, merge_stream_branch}
use agentic_loop_template.StreamGit.Worktree.{IntegrationError, ensure_integration_worktree}
use agentic_loop_template.Parallel.Hub.{
  Hub, HubWorld, Options, Escape, not_provisioned, stream_raised, HubReason, lease_refused,
  streams_blocked, push_failed, no_integration, merge_failed, StreamReason, no_worktree_of,
  StreamResult, StreamError, no_worktree, fanned_out, Results, lease_call, tick, put_result,
  amend_result,
}
use agentic_loop_template.Parallel.Stream.{
  text_or_empty, new_result, run_one_stream, worker, is_blocked, outer_reason,
}

pub data Phase (A : Type 0) : Type 0 where
  go : A → Phase A
  halt : HubReason → Phase A
  escape : Escape → Phase A

infixl 5 ◌>>>◌
unfoldable pub ◌>>>◌ : {A B : Type 0} → Phase A × Hub → (A → Hub → Phase B × Hub) → Phase B × Hub
(go a, hub) >>> next = next a hub
(halt why, hub) >>> next = (halt why, hub)
(escape e, hub) >>> next = (escape e, hub)

-- `for plan in plans`, with returns in its body
unfoldable pub each :
    (StreamPlan → Hub → Phase (Unit {0}) × Hub) → List StreamPlan → Hub → Phase (Unit {0}) × Hub
each body [] hub = (go tt, hub)
each body (plan ∷ plans) hub = body plan hub >>> λ u hub1. each body plans hub1

-- A lease that was claimed, or refused.
unfoldable pub claimed_as : Text → Result ValueError Reply × Hub → Phase (Unit {0}) × Hub
claimed_as name (err e, hub) = (halt (lease_refused e), hub)
claimed_as name (ok reply, hub) = (go tt, record hub { claimed = hub.claimed ++ name ∷ [] })

unfoldable pub claim_one : HubWorld → Options → StreamPlan → Hub → Phase (Unit {0}) × Hub
claim_one world opts plan hub =
    let args : ClaimArgs = record {
      name = plan.name;
      owned_paths = plan.owned_paths;
      worktree = plan.worktree;
      ttl_s = opts.lease_ttl_s;
      branch = plan.branch;
    } in
    claimed_as plan.name (lease_call world (claim_lease args) hub)

unfoldable pub provisioned_as :
    Hub → Result ProvisionError (List StreamPlan) × Log → Phase (List StreamPlan) × Hub
provisioned_as hub (err e, log) = (escape (not_provisioned e), record hub { log = log })
provisioned_as hub (ok plans, log) = (go plans, record hub { log = log })

unfoldable pub provision :
    HubWorld → Options → List StreamPlan → Hub → Phase (List StreamPlan) × Hub
provision world opts plans hub =
    if opts.skip_provision
    then (go plans, hub)
    else provisioned_as hub (
        provision_stream_worktrees world.git opts.hub opts.wt_base opts.cycle_id opts.base_ref plans
          hub.log)

-- `if not plan.worktree`
unfoldable pub has_worktree : StreamPlan → Hub → Phase (Unit {0}) × Hub
has_worktree plan hub =
    if is_empty (text_or_empty plan.worktree)
    then (
      halt (streams_blocked (no_worktree_of plan.name ∷ [])),
      put_result plan.name (new_result blocked no_worktree) hub,
    )
    else (go tt, hub)

unfoldable pub fan_out : StreamPlan → Hub → Phase (Unit {0}) × Hub
fan_out plan hub = (
  go tt,
  put_result plan.name (new_result running (fanned_out (text_or_empty plan.worktree) plan.branch))
      hub,
)

unfoldable pub ticked : HubWorld → Options → Text → Hub → Phase (Unit {0}) × Hub
ticked world opts terminal hub = (go tt, tick world opts terminal hub)

-- One stream's record in place, and a tick.
unfoldable pub record_result : HubWorld → Options → Text → StreamResult → Hub → Hub
record_result world opts name r hub = tick world opts (text "IN_PROGRESS") (put_result name r hub)

-- The serial run stops at the first stream that is BLOCKED.
unfoldable pub join_serial :
    HubWorld → Options → StreamPlan → Result StreamError StreamResult → Hub → Phase (Unit {0}) × Hub
join_serial world opts plan (err e) hub = (escape (stream_raised e), hub)
join_serial world opts plan (ok r) hub = (
  if is_blocked r.status
      then halt (streams_blocked (outer_reason plan.name r.detail ∷ []))
      else go tt,
  record_result world opts plan.name r hub,
)

unfoldable pub serial_one : HubWorld → Options → StreamPlan → Hub → Phase (Unit {0}) × Hub
serial_one world opts plan hub = join_serial world opts plan (run_one_stream world opts plan) hub

-- A future that completes.
unfoldable pub join_future : HubWorld → Options → StreamPlan → Hub → Phase (Unit {0}) × Hub
join_future world opts plan hub =
    (go tt, record_result world opts plan.name (worker world opts plan) hub)

unfoldable pub blocked_reasons : Results → List StreamReason
blocked_reasons [] = []
blocked_reasons ((name, r) ∷ rs) =
    let rest = blocked_reasons rs in
    if is_blocked r.status then outer_reason name r.detail ∷ rest else rest

unfoldable pub all_joined : Hub → Phase (Unit {0}) × Hub
all_joined hub =
    let reasons = blocked_reasons hub.results in
    (if is_empty reasons then go tt else halt (streams_blocked reasons), hub)

-- `if concurrent`
unfoldable pub run_mode : Bool → HubWorld → Options → List StreamPlan → Hub → Phase (Unit {0}) × Hub
run_mode true world opts plans hub =
    each (join_future world opts) (world.completed plans) hub >>> λ u hub1. all_joined hub1
run_mode false world opts plans hub = each (serial_one world opts) plans hub

unfoldable pub run_streams : HubWorld → Options → List StreamPlan → Hub → Phase (Unit {0}) × Hub
run_streams world opts plans hub = run_mode opts.concurrent world opts plans hub

-- A push, once git has answered.
unfoldable pub pushed_as : Text → Hub → Result Text (Unit {0}) × Log → Phase (Unit {0}) × Hub
pushed_as name hub (ok u, log) = (go tt, record hub { log = log })
pushed_as name hub (err e, log) = (
  halt (push_failed name e),
  amend_result name (λ r. record r { status = blocked; push_error = some e })
      (record hub { log = log }),
)

unfoldable pub push_one : HubWorld → StreamPlan → Hub → Phase (Unit {0}) × Hub
push_one world plan hub =
    let branch = text_or_empty plan.branch in
    let wt = text_or_empty plan.worktree in
    if is_empty branch || is_empty wt
    then (go tt, hub)
    else pushed_as plan.name hub (push_branch world.git wt branch (text "origin") hub.log)

unfoldable pub integrated_as : Hub → Result IntegrationError Text × Log → Phase Text × Hub
integrated_as hub (err e, log) = (halt (no_integration e), record hub { log = log })
integrated_as hub (ok wt, log) = (go wt, record hub { log = log; integration_workdir = some wt })

unfoldable pub integrate : HubWorld → Options → Hub → Phase Text × Hub
integrate world opts hub = integrated_as hub (
    ensure_integration_worktree world.git opts.hub opts.wt_base opts.integration_branch
      opts.base_ref hub.log)

unfoldable pub merged_as : Text → Hub → Result Text (Unit {0}) × Log → Phase (Unit {0}) × Hub
merged_as name hub (ok u, log) =
    (go tt, amend_result name (λ r. record r { status = merged }) (record hub { log = log }))
merged_as name hub (err e, log) = (
  halt (merge_failed name e),
  amend_result name (λ r. record r { status = blocked; merge_error = some e })
      (record hub { log = log }),
)

unfoldable pub merge_one : HubWorld → Options → Text → StreamPlan → Hub → Phase (Unit {0}) × Hub
merge_one world opts wt plan hub =
    let branch = text_or_empty plan.branch in
    if is_empty branch
    then (go tt, hub)
    else merged_as plan.name hub
        (merge_stream_branch world.git wt branch opts.integration_branch opts.base_ref hub.log)

unfoldable pub integration_pushed_as :
    Text → Hub → Result Text (Unit {0}) × Log → Phase (Unit {0}) × Hub
integration_pushed_as branch hub (ok u, log) = (go tt, record hub { log = log })
integration_pushed_as branch hub (err e, log) =
    (halt (push_failed branch e), record hub { log = log })

unfoldable pub push_integration : HubWorld → Options → Text → Hub → Phase (Unit {0}) × Hub
push_integration world opts wt hub =
    integration_pushed_as opts.integration_branch hub
      (push_branch world.git wt opts.integration_branch (text "origin") hub.log)

-- `if want_push`
unfoldable pub if_pushing : Options → (Hub → Phase (Unit {0}) × Hub) → Hub → Phase (Unit {0}) × Hub
if_pushing opts phase hub = if opts.push then phase hub else (go tt, hub)

-- ===== src/Parallel/Keeps.antt =====
-- memory/supervisor_parallel.py: what every phase keeps of the hub: a lease registry that calls lead to, and a
-- log without a push that names main or master.
pub mod Integration
pub mod Whole
use agentic_loop_template.Base.{
  Bool, true, false, List, [], ◌∷◌, Option, none, some, length, Result, ok, err, ◌≡◌, refl,
  Bool-cases, inl, inr, if◌then◌else◌, ◌||◌,
}
use agentic_loop_template.Base.Text.{Text, text, is_empty}
use agentic_loop_template.Errors.{ValueError}
use agentic_loop_template.Handoff.{Problem, validate_handoff}
use agentic_loop_template.Json.{Fields, object}
use agentic_loop_template.Lease.Liveness.{System}
use agentic_loop_template.Lease.Registry.{RegistryFile, ClaimArgs}
use agentic_loop_template.Lease.Requests.{
  Request, Reply, claim_lease, renew_lease, release_lease, serve,
}
use agentic_loop_template.Lease.Reach.{Reach, call}
use agentic_loop_template.Streams.Plans.{StreamPlan, validate_stream_plans}
use agentic_loop_template.Streams.Provision.{ProvisionError, provision_stream_worktrees}
use agentic_loop_template.Streams.Provision.Keeps.{provision-AllFit}
use agentic_loop_template.StreamGit.{Log, push_branch, merge_stream_branch}
use agentic_loop_template.StreamGit.Worktree.{IntegrationError, ensure_integration_worktree}
use agentic_loop_template.StreamGit.Protected.{
  IsSafeLog, merge_stream-IsSafeLog, push-IsSafeLog, ensure-IsSafeLog, empty-IsSafeLog,
}
use agentic_loop_template.Supervisor.Roles.{Terminal, value}
use agentic_loop_template.Parallel.Hub.{
  Hub, HubWorld, Options, StreamResult, StreamError, Escape, serve_all, lease_call, renew_all,
  release_all, tick, put_result, amend_result,
}
use agentic_loop_template.Parallel.Stream.{text_or_empty, run_one_stream, worker}
use agentic_loop_template.Parallel.Phases.{
  Phase, go, halt, escape, ◌>>>◌, each, claimed_as, claim_one, provisioned_as, provision,
  has_worktree, fan_out, ticked, record_result, join_serial, serial_one, join_future, all_joined,
  run_mode, run_streams, pushed_as, push_one, integrated_as, integrate, merged_as, merge_one,
  integration_pushed_as, push_integration, if_pushing,
}
use agentic_loop_template.Parallel.Run.{
  HubOutcome, done_handoff, final_terminal, saved_done, finish, integration, stream_phase, phases,
  returned, released_after, fresh, run_valid, run_parallel,
}

abbrev pub IsSound : Hub → Type 0
IsSound hub = Reach hub.registry × IsSafeLog hub.log

pub bind-IsSound :
    {A B : Type 0} (x : Phase A × Hub) (next : A → Hub → Phase B × Hub)
    → IsSound x.1
    → ((a : A) (hub : Hub) → IsSound hub → IsSound (next a hub).1)
    → IsSound (x >>> next).1
unfolding ◌>>>◌
bind-IsSound (go a, hub) next s keeps = keeps a hub s
bind-IsSound (halt why, hub) next s keeps = s
bind-IsSound (escape e, hub) next s keeps = s

pub each-IsSound :
    (body : StreamPlan → Hub → Phase (Unit {0}) × Hub) (plans : List StreamPlan) (hub : Hub)
    → ((p : StreamPlan) (hub : Hub) → IsSound hub → IsSound (body p hub).1)
    → IsSound hub
    → IsSound (each body plans hub).1
unfolding each
each-IsSound body [] hub keeps s = s
each-IsSound body (p ∷ plans) hub keeps s =
    bind-IsSound (body p hub) (λ u hub1. each body plans hub1) (keeps p hub s)
      (λ u hub1 s1. each-IsSound body plans hub1 keeps s1)

pub serve_all-Reach :
    (calls : List (System × Request)) (file : RegistryFile)
    → Reach file
    → Reach (serve_all calls file)
unfolding serve_all
serve_all-Reach [] file r = r
serve_all-Reach ((sys, req) ∷ calls) file r =
    serve_all-Reach calls (serve sys req file).1 (call sys req r)

pub lease_call-IsSound :
    (world : HubWorld) (req : Request) (hub : Hub)
    → IsSound hub
    → IsSound (lease_call world req hub).1
unfolding lease_call
lease_call-IsSound world req hub (r, s) = (
  call (world.system hub.lease_calls) req
      (serve_all-Reach (world.others hub.lease_calls) hub.registry r),
  s,
)

renew_all-IsSound :
    (world : HubWorld) (opts : Options) (names : List Text) (hub : Hub)
    → IsSound hub
    → IsSound (renew_all world opts names hub)
unfolding renew_all
renew_all-IsSound world opts [] hub s = s
renew_all-IsSound world opts (n ∷ names) hub s =
    renew_all-IsSound world opts names (lease_call world (renew_lease n opts.lease_ttl_s) hub).1
      (lease_call-IsSound world (renew_lease n opts.lease_ttl_s) hub s)

pub release_all-IsSound :
    (world : HubWorld) (names : List Text) (hub : Hub)
    → IsSound hub
    → IsSound (release_all world names hub)
unfolding release_all
release_all-IsSound world [] hub s = s
release_all-IsSound world (n ∷ names) hub s =
    release_all-IsSound world names (lease_call world (release_lease n) hub).1
      (lease_call-IsSound world (release_lease n) hub s)

pub tick-IsSound :
    (world : HubWorld) (opts : Options) (t : Text) (hub : Hub)
    → IsSound hub
    → IsSound (tick world opts t hub)
unfolding tick
tick-IsSound world opts t hub s =
    renew_all-IsSound world opts hub.claimed
      (record hub { payloads = (hub.results, t) ∷ hub.payloads }) s

claimed_as-IsSound :
    (name : Text) (x : Result ValueError Reply × Hub) → IsSound x.1 → IsSound (claimed_as name x).1
unfolding claimed_as
claimed_as-IsSound name (err e, hub) s = s
claimed_as-IsSound name (ok reply, hub) s = s

pub claim_one-IsSound :
    (world : HubWorld) (opts : Options) (p : StreamPlan) (hub : Hub)
    → IsSound hub
    → IsSound (claim_one world opts p hub).1
unfolding claim_one
claim_one-IsSound world opts p hub s =
    claimed_as-IsSound p.name _ (lease_call-IsSound world _ hub s)

provisioned_as-IsSound :
    (hub : Hub) (x : Result ProvisionError (List StreamPlan) × Log)
    → Reach hub.registry
    → IsSafeLog x.1
    → IsSound (provisioned_as hub x).1
unfolding provisioned_as
provisioned_as-IsSound hub (err e, log) r s = (r, s)
provisioned_as-IsSound hub (ok ps, log) r s = (r, s)

pub if-IsSound :
    {A : Type 0} (c : Bool) (x y : Phase A × Hub)
    → IsSound x.1
    → IsSound y.1
    → IsSound (if c then x else y).1
if-IsSound true x y sx sy = sx
if-IsSound false x y sx sy = sy

pub provision-IsSound :
    (world : HubWorld) (opts : Options) (plans : List StreamPlan) (hub : Hub)
    → IsSound hub
    → IsSound (provision world opts plans hub).1
unfolding provision
provision-IsSound world opts plans hub (r, s) =
    let made =
      provision_stream_worktrees world.git opts.hub opts.wt_base opts.cycle_id opts.base_ref plans
        hub.log in
    let fits =
      provision-AllFit world.git opts.hub opts.wt_base opts.cycle_id opts.base_ref plans hub.log in
    if-IsSound opts.skip_provision (go plans, hub) (provisioned_as hub made) (r, s)
      (provisioned_as-IsSound hub made r (fits.safe s))

join_serial-IsSound :
    (world : HubWorld) (opts : Options) (p : StreamPlan) (r : Result StreamError StreamResult)
    (hub : Hub)
    → IsSound hub
    → IsSound (join_serial world opts p r hub).1
unfolding join_serial record_result put_result
join_serial-IsSound world opts p (err e) hub s = s
join_serial-IsSound world opts p (ok r) hub s =
    tick-IsSound world opts (text "IN_PROGRESS") (put_result p.name r hub) s

run_mode-IsSound :
    (mode : Bool) (world : HubWorld) (opts : Options) (plans : List StreamPlan) (hub : Hub)
    → IsSound hub
    → IsSound (run_mode mode world opts plans hub).1
unfolding run_mode serial_one join_future all_joined record_result put_result
run_mode-IsSound true world opts plans hub s =
    bind-IsSound (each (join_future world opts) (world.completed plans) hub)
      (λ u hub1. all_joined hub1)
      (each-IsSound (join_future world opts) (world.completed plans) hub
        (λ p h sh.
          tick-IsSound world opts (text "IN_PROGRESS") (put_result p.name (worker world opts p) h)
            sh)
        s)
      (λ u hub1 s1. s1)
run_mode-IsSound false world opts plans hub s =
    each-IsSound (serial_one world opts) plans hub
      (λ p h sh. join_serial-IsSound world opts p (run_one_stream world opts p) h sh) s

pub run_streams-IsSound :
    (world : HubWorld) (opts : Options) (plans : List StreamPlan) (hub : Hub)
    → IsSound hub
    → IsSound (run_streams world opts plans hub).1
unfolding run_streams
run_streams-IsSound world opts plans hub s = run_mode-IsSound opts.concurrent world opts plans hub s

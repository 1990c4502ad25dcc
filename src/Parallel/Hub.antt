-- ===== src/Parallel/Hub.antt =====
-- memory/supervisor_parallel.py: what a run keeps and reads, and its ticks. Calls of the lease registry by
-- other processes come between the run's own.
use agentic_loop_template.Base.{ℕ, suc, Bool, List, [], ◌∷◌, Option, if◌then◌else◌, Result}
use agentic_loop_template.Base.Int.{ℤ}
use agentic_loop_template.Base.Text.{Text, text_eq}
use agentic_loop_template.Errors.{ValueError}
use agentic_loop_template.Json.{Fields, Crash}
use agentic_loop_template.Handoff.{Problem, Schema}
use agentic_loop_template.Lease.Liveness.{System}
use agentic_loop_template.Lease.Registry.{RegistryFile}
use agentic_loop_template.Lease.Requests.{Request, renew_lease, release_lease, Reply, serve}
use agentic_loop_template.Streams.Gate.{GitResult}
use agentic_loop_template.Streams.Plans.{StreamPlan, StreamStatus}
use agentic_loop_template.Streams.Provision.{ProvisionError}
use agentic_loop_template.StreamGit.{Git, Log}
use agentic_loop_template.StreamGit.Worktree.{IntegrationError}
use agentic_loop_template.Supervisor.Roles.{Terminal}
use agentic_loop_template.Supervisor.Turn.{World, Config, Run, Gh}
use agentic_loop_template.Supervisor.Loop.{Outcome}

-- An exception in the work on one stream.
pub data StreamError : Type 0 where
  loop_crash : Crash → StreamError
  gate_error : ValueError → StreamError

-- What a record of `stream_results` says beside its status.
pub data Detail : Type 0 where
  no_worktree : Detail
  -- the worktree and the branch
  fanned_out : Text → Option Text → Detail
  loop_ended : Outcome → Text → Detail
  owned_paths_violated : List Text → Text → Detail
  raised : StreamError → Text → Detail
  passed : Outcome → Text → Option Text → Detail

pub record StreamResult : Type 0 where
  pub status : StreamStatus
  pub detail : Detail
  pub push_error : Option Text
  pub merge_error : Option Text

-- `stream_results`, in the order of its keys.
abbrev pub Results : Type 0
Results = List (Text × StreamResult)

-- `_blocked_outer_reason`, by its messages.
pub data StreamReason : Type 0 where
  no_worktree_of : Text → StreamReason
  owned_paths_in : Text → List Text → StreamReason
  stream_terminal : Text → Terminal → StreamReason
  stream_failed : Text → StreamError → StreamReason
  stream_blocked : Text → StreamReason

-- "reason" of the result.
pub data HubReason : Type 0 where
  lease_refused : ValueError → HubReason
  streams_blocked : List StreamReason → HubReason
  push_failed : Text → Text → HubReason
  no_integration : IntegrationError → HubReason
  merge_failed : Text → Text → HubReason
  done_rejected : List Problem → HubReason

-- An exception that leaves `run_parallel`.
pub data Escape : Type 0 where
  invalid_plans : ValueError → Escape
  not_provisioned : ProvisionError → Escape
  stream_raised : StreamError → Escape

-- The arguments and the configuration, defaults filled in.
pub record Options : Type 0 where
  pub concurrent : Bool
  pub push : Bool
  pub require_owned_paths : Bool
  pub create_pr : Bool
  pub skip_provision : Bool
  pub lease_ttl_s : ℤ
  pub adapter_name : Text
  pub max_cycles_per_stream : ℤ
  pub base_ref : Text
  pub integration_branch : Text
  pub hub : Text
  pub wt_base : Text
  pub cycle_id : Text

-- What is outside: for each stream the world of its loop, its worktree's files and git; for the hub the lease
-- calls of other processes before the run's own, git, `gh`, and the order in which the futures complete.
pub record HubWorld : Type 0 where
  pub system : ℕ → System
  pub others : ℕ → List (System × Request)
  pub git : Git
  pub stream_world : Text → World
  pub stream_config : Text → Config
  pub stream_run : Text → Run
  pub stream_git : Text → List Text → GitResult
  pub completed : List StreamPlan → List StreamPlan
  pub gh : Gh
  pub schema : Schema
  -- `f"parallel integration {integration_branch}: {list(stream_results)}"`
  pub summary : Text → List Text → Text

-- The state of a run: the files that the streams share, the commands given to git, and the variables.
pub record Hub : Type 0 where
  pub registry : RegistryFile
  pub lease_calls : ℕ
  pub log : Log
  -- "streams" and "terminal" of what was written to streams_state.json, the last one first
  pub payloads : List (Results × Text)
  pub last_handoff : Option Fields
  pub results : Results
  pub claimed : List Text
  pub integration_workdir : Option Text

unfoldable pub serve_all : List (System × Request) → RegistryFile → RegistryFile
serve_all [] file = file
serve_all ((sys, req) ∷ calls) file = serve_all calls (serve sys req file).1

-- One call of the registry, after those of others.
unfoldable pub lease_call : HubWorld → Request → Hub → Result ValueError Reply × Hub
lease_call world req hub =
    let file = serve_all (world.others hub.lease_calls) hub.registry in
    let (reply, after) = serve (world.system hub.lease_calls) req file in
    (reply, record hub { registry = after; lease_calls = suc hub.lease_calls })

-- A ValueError is only logged.
unfoldable pub renew_all : HubWorld → Options → List Text → Hub → Hub
renew_all world opts [] hub = hub
renew_all world opts (name ∷ names) hub =
    renew_all world opts names (lease_call world (renew_lease name opts.lease_ttl_s) hub).1

-- The `finally` block.
unfoldable pub release_all : HubWorld → List Text → Hub → Hub
release_all world [] hub = hub
release_all world (name ∷ names) hub =
    release_all world names (lease_call world (release_lease name) hub).1

-- `_tick`
unfoldable pub tick : HubWorld → Options → Text → Hub → Hub
tick world opts terminal hub =
    renew_all world opts hub.claimed
      (record hub { payloads = (hub.results, terminal) ∷ hub.payloads })

-- `stream_results[name] = r`
unfoldable pub assign : Text → StreamResult → Results → Results
assign name r [] = (name, r) ∷ []
assign name r ((n, x) ∷ rs) = if text_eq n name then (n, r) ∷ rs else (n, x) ∷ assign name r rs

-- A change of the record `stream_results[name]`.
unfoldable pub amend : Text → (StreamResult → StreamResult) → Results → Results
amend name f [] = []
amend name f ((n, x) ∷ rs) = if text_eq n name then (n, f x) ∷ rs else (n, x) ∷ amend name f rs

unfoldable pub put_result : Text → StreamResult → Hub → Hub
put_result name r hub = record hub { results = assign name r hub.results }

unfoldable pub amend_result : Text → (StreamResult → StreamResult) → Hub → Hub
amend_result name f hub = record hub { results = amend name f hub.results }

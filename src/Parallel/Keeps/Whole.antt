-- ===== src/Parallel/Keeps/Whole.antt =====
-- memory/supervisor_parallel.py: what a whole run keeps of the files that it shares with others.
use agentic_loop_template.Base.{false, List, Result, ok, err, ◌≡◌, In}
use agentic_loop_template.Base.Text.{Text, text, is_empty}
use agentic_loop_template.Errors.{ValueError}
use agentic_loop_template.Lease.Reach.{Reach}
use agentic_loop_template.Streams.Plans.{StreamPlan, validate_stream_plans}
use agentic_loop_template.StreamGit.{Command}
use agentic_loop_template.StreamGit.Protected.{empty-IsSafeLog, names_protected, IsSafeLog-In}
use agentic_loop_template.Parallel.Hub.{Hub, HubWorld, Options, put_result}
use agentic_loop_template.Parallel.Stream.{text_or_empty}
use agentic_loop_template.Parallel.Phases.{
  Phase, go, halt, escape, each, claim_one, provision, has_worktree, fan_out, ticked,
}
use agentic_loop_template.Parallel.Run.{
  HubOutcome, stream_phase, phases, returned, released_after, fresh, run_valid, run_parallel,
}
use agentic_loop_template.Parallel.Keeps.{
  IsSound, bind-IsSound, each-IsSound, tick-IsSound, release_all-IsSound, claim_one-IsSound,
  provision-IsSound, run_streams-IsSound, if-IsSound,
}
use agentic_loop_template.Parallel.Keeps.Integration.{KeepsSound, integration-IsSound}

has_worktree-IsSound : (p : StreamPlan) → KeepsSound (has_worktree p)
unfolding has_worktree put_result
has_worktree-IsSound p hub s = if-IsSound (is_empty (text_or_empty p.worktree)) _ (go tt, hub) s s

fan_out-IsSound : (p : StreamPlan) → KeepsSound (fan_out p)
unfolding fan_out put_result
fan_out-IsSound p hub s = s

ticked-IsSound : (world : HubWorld) (opts : Options) (t : Text) → KeepsSound (ticked world opts t)
unfolding ticked
ticked-IsSound world opts t hub s = tick-IsSound world opts t hub s

stream_phase-IsSound :
    (world : HubWorld) (opts : Options) (plans : List StreamPlan)
    → KeepsSound (stream_phase world opts plans)
unfolding stream_phase
stream_phase-IsSound world opts plans hub s =
    bind-IsSound (each has_worktree plans hub) _
      (each-IsSound has_worktree plans hub has_worktree-IsSound s)
      (λ u hub1 s1.
        bind-IsSound (each fan_out plans hub1) _
          (each-IsSound fan_out plans hub1 fan_out-IsSound s1)
          (λ v hub2 s2.
            bind-IsSound (ticked world opts (text "IN_PROGRESS") hub2) _
              (ticked-IsSound world opts (text "IN_PROGRESS") hub2 s2)
              (λ w hub3 s3. run_streams-IsSound world opts plans hub3 s3)))

pub phases-IsSound :
    (world : HubWorld) (opts : Options) (plans : List StreamPlan)
    → KeepsSound (phases world opts plans)
unfolding phases
phases-IsSound world opts plans hub s =
    bind-IsSound (each (claim_one world opts) plans hub) _
      (each-IsSound (claim_one world opts) plans hub (claim_one-IsSound world opts) s)
      (λ u hub1 s1.
        bind-IsSound (provision world opts plans hub1) _
          (provision-IsSound world opts plans hub1 s1)
          (λ ready hub2 s2.
            bind-IsSound (stream_phase world opts ready hub2) _
              (stream_phase-IsSound world opts ready hub2 s2)
              (λ v hub3 s3. integration-IsSound world opts ready hub3 s3)))

pub returned-IsSound :
    (world : HubWorld) (opts : Options) (x : Phase HubOutcome × Hub)
    → IsSound x.1
    → IsSound (returned world opts x).1
unfolding returned
returned-IsSound world opts (go o, hub) s = s
returned-IsSound world opts (escape e, hub) s = s
returned-IsSound world opts (halt why, hub) s = tick-IsSound world opts (text "BLOCKED") hub s

run_valid-IsSound :
    (world : HubWorld) (opts : Options) (plans : List StreamPlan)
    (valid : Result ValueError (Unit {0})) (hub : Hub)
    → IsSound hub
    → IsSound (run_valid world opts plans valid hub).1
unfolding run_valid released_after
run_valid-IsSound world opts plans (err e) hub s = s
run_valid-IsSound world opts plans (ok u) hub s = release_all-IsSound world _ _ (
    returned-IsSound world opts (phases world opts plans hub)
      (phases-IsSound world opts plans hub s))

pub run_parallel-IsSound :
    (world : HubWorld) (opts : Options) (plans : List StreamPlan) (hub : Hub)
    → Reach hub.registry
    → IsSound (run_parallel world opts plans hub).1
unfolding run_parallel fresh
run_parallel-IsSound world opts plans hub reach =
    run_valid-IsSound world opts plans (validate_stream_plans plans) (fresh hub)
      (reach, empty-IsSafeLog)

-- However it ends, a run of streams gives git no push one of whose arguments, as it is written, is main or master, whatever
-- the branches of the plans and the integration branch are called; the registry that it finds is one that calls lead to.
-- A longer spelling of the same branch, such as refs/heads/main, is another argument.
pub run_parallel-protected :
    (world : HubWorld) (opts : Options) (plans : List StreamPlan) (hub : Hub)
    → Reach hub.registry
    → (c : Command) → In c (run_parallel world opts plans hub).1.log
    → names_protected c.args ≡ false
run_parallel-protected world opts plans hub reach c given =
    IsSafeLog-In c _ (run_parallel-IsSound world opts plans hub reach).1 given

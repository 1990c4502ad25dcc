-- ===== src/Parallel/Keeps/Integration.antt =====
-- memory/supervisor_parallel.py: what the integration keeps of the hub.
use agentic_loop_template.Base.{false, List, [], ◌∷◌, Result, ok, err, ◌≡◌, refl, ◌||◌}
use agentic_loop_template.Base.Text.{Text, text, is_empty}
use agentic_loop_template.Handoff.{Problem}
use agentic_loop_template.Json.{Fields}
use agentic_loop_template.Lease.Reach.{Reach}
use agentic_loop_template.Streams.Plans.{StreamPlan}
use agentic_loop_template.StreamGit.{Log, push_branch, merge_stream_branch}
use agentic_loop_template.StreamGit.Worktree.{IntegrationError}
use agentic_loop_template.StreamGit.Protected.{
  IsSafeLog, merge_stream-IsSafeLog, push-IsSafeLog, ensure-IsSafeLog,
}
use agentic_loop_template.StreamGit.Branches.{is_protected_name}
use agentic_loop_template.Base.Text.{text_eq}
use agentic_loop_template.Supervisor.Roles.{Terminal, value}
use agentic_loop_template.Parallel.Hub.{Hub, HubWorld, Options, amend_result}
use agentic_loop_template.Parallel.Stream.{text_or_empty}
use agentic_loop_template.Parallel.Phases.{
  Phase, go, each, pushed_as, push_one, integrated_as, integrate, merged_as, merge_one,
  integration_pushed_as, push_integration, if_pushing,
}
use agentic_loop_template.Parallel.Run.{final_terminal, saved_done, finish, integration}
use agentic_loop_template.Parallel.Keeps.{
  IsSound, bind-IsSound, each-IsSound, tick-IsSound, if-IsSound,
}

origin_is_plain : is_protected_name (text "origin") ≡ false
unfolding is_protected_name text_eq
origin_is_plain = refl

-- A phase that keeps the hub sound.
abbrev pub KeepsSound : {A : Type 0} → (Hub → Phase A × Hub) → Type 0
KeepsSound f = (hub : Hub) → IsSound hub → IsSound (f hub).1

pushed_as-IsSound :
    (name : Text) (hub : Hub) (x : Result Text (Unit {0}) × Log)
    → Reach hub.registry
    → IsSafeLog x.1
    → IsSound (pushed_as name hub x).1
unfolding pushed_as amend_result
pushed_as-IsSound name hub (ok u, log) r s = (r, s)
pushed_as-IsSound name hub (err e, log) r s = (r, s)

push_one-IsSound : (world : HubWorld) (p : StreamPlan) → KeepsSound (push_one world p)
unfolding push_one
push_one-IsSound world p hub (r, s) =
    let branch = text_or_empty p.branch in
    let wt = text_or_empty p.worktree in
    let pushed = push_branch world.git wt branch (text "origin") hub.log in
    if-IsSound (is_empty branch || is_empty wt) (go tt, hub) (pushed_as p.name hub pushed) (r, s)
      (pushed_as-IsSound p.name hub pushed r
        (push-IsSafeLog world.git wt branch (text "origin") origin_is_plain hub.log s))

integrated_as-IsSound :
    (hub : Hub) (x : Result IntegrationError Text × Log)
    → Reach hub.registry
    → IsSafeLog x.1
    → IsSound (integrated_as hub x).1
unfolding integrated_as
integrated_as-IsSound hub (ok wt, log) r s = (r, s)
integrated_as-IsSound hub (err e, log) r s = (r, s)

integrate-IsSound : (world : HubWorld) (opts : Options) → KeepsSound (integrate world opts)
unfolding integrate
integrate-IsSound world opts hub (r, s) = integrated_as-IsSound hub _ r (
    ensure-IsSafeLog world.git opts.hub opts.wt_base opts.integration_branch opts.base_ref hub.log
      s)

merged_as-IsSound :
    (name : Text) (hub : Hub) (x : Result Text (Unit {0}) × Log)
    → Reach hub.registry
    → IsSafeLog x.1
    → IsSound (merged_as name hub x).1
unfolding merged_as amend_result
merged_as-IsSound name hub (ok u, log) r s = (r, s)
merged_as-IsSound name hub (err e, log) r s = (r, s)

merge_one-IsSound :
    (world : HubWorld) (opts : Options) (wt : Text) (p : StreamPlan)
    → KeepsSound (merge_one world opts wt p)
unfolding merge_one
merge_one-IsSound world opts wt p hub (r, s) =
    let branch = text_or_empty p.branch in
    let merged =
      merge_stream_branch world.git wt branch opts.integration_branch opts.base_ref hub.log in
    if-IsSound (is_empty branch) (go tt, hub) (merged_as p.name hub merged) (r, s)
      (merged_as-IsSound p.name hub merged r (
        merge_stream-IsSafeLog world.git wt branch opts.integration_branch opts.base_ref hub.log s))

integration_pushed-IsSound :
    (branch : Text) (hub : Hub) (x : Result Text (Unit {0}) × Log)
    → Reach hub.registry
    → IsSafeLog x.1
    → IsSound (integration_pushed_as branch hub x).1
unfolding integration_pushed_as
integration_pushed-IsSound branch hub (ok u, log) r s = (r, s)
integration_pushed-IsSound branch hub (err e, log) r s = (r, s)

push_integration-IsSound :
    (world : HubWorld) (opts : Options) (wt : Text) → KeepsSound (push_integration world opts wt)
unfolding push_integration
push_integration-IsSound world opts wt hub (r, s) =
    integration_pushed-IsSound opts.integration_branch hub _ r (
      push-IsSafeLog world.git wt opts.integration_branch (text "origin") origin_is_plain hub.log s)

if_pushing-IsSound :
    (opts : Options) (phase : Hub → Phase (Unit {0}) × Hub)
    → KeepsSound phase
    → KeepsSound (if_pushing opts phase)
unfolding if_pushing
if_pushing-IsSound opts phase keeps hub s =
    if-IsSound opts.push (phase hub) (go tt, hub) (keeps hub s) s

saved_done-IsSound :
    (opts : Options) (term : Terminal) (handoff : Fields) (problems : List Problem)
    → KeepsSound (saved_done opts term handoff problems)
unfolding saved_done
saved_done-IsSound opts term handoff [] hub s = s
saved_done-IsSound opts term handoff (p ∷ ps) hub s = s

finish-IsSound : (world : HubWorld) (opts : Options) → KeepsSound (finish world opts)
unfolding finish
finish-IsSound world opts hub s =
    saved_done-IsSound opts (final_terminal world opts) _ _ _
      (tick-IsSound world opts (value (final_terminal world opts)) hub s)

pub integration-IsSound :
    (world : HubWorld) (opts : Options) (plans : List StreamPlan)
    → KeepsSound (integration world opts plans)
unfolding integration
integration-IsSound world opts plans hub s =
    bind-IsSound (if_pushing opts (each (push_one world) plans) hub) _
      (if_pushing-IsSound opts (each (push_one world) plans)
        (λ h sh. each-IsSound (push_one world) plans h (push_one-IsSound world) sh) hub s)
      (λ u hub1 s1.
        bind-IsSound (integrate world opts hub1) _ (integrate-IsSound world opts hub1 s1)
          (λ wt hub2 s2.
            bind-IsSound (each (merge_one world opts wt) plans hub2) _
              (each-IsSound (merge_one world opts wt) plans hub2 (merge_one-IsSound world opts wt)
                s2)
              (λ v hub3 s3.
                bind-IsSound (if_pushing opts (push_integration world opts wt) hub3) _
                  (if_pushing-IsSound opts (push_integration world opts wt)
                    (push_integration-IsSound world opts wt) hub3 s3)
                  (λ w hub4 s4. finish-IsSound world opts hub4 s4))))

-- ===== src/Parallel/Claimed.antt =====
-- memory/supervisor_parallel.py: the names in `claimed`. Only the claims add to them, and a run that succeeds has claimed a
-- lease for every plan.
use agentic_loop_template.Base.{
  Bool, true, false, List, [], ◌∷◌, Result, ok, err, ◌≡◌, if◌then◌else◌,
}
use agentic_loop_template.Base.Text.{Text, text, is_empty}
use agentic_loop_template.Handoff.{Problem}
use agentic_loop_template.Json.{Fields}
use agentic_loop_template.Streams.Plans.{StreamPlan}
use agentic_loop_template.Streams.Provision.{ProvisionError}
use agentic_loop_template.StreamGit.{Log}
use agentic_loop_template.StreamGit.Worktree.{IntegrationError}
use agentic_loop_template.Supervisor.Roles.{Terminal, value}
use agentic_loop_template.Parallel.Hub.{
  Hub, HubWorld, Options, StreamResult, StreamError, lease_call, renew_all, tick, put_result,
  amend_result,
}
use agentic_loop_template.Parallel.Stream.{text_or_empty, run_one_stream}
use agentic_loop_template.Parallel.Phases.{
  Phase, go, halt, escape, ◌>>>◌, each, provisioned_as, provision, has_worktree, fan_out, ticked,
  record_result, join_serial, serial_one, join_future, all_joined, run_mode, run_streams, pushed_as,
  push_one, integrated_as, integrate, merged_as, merge_one, integration_pushed_as, push_integration,
  if_pushing,
}
use agentic_loop_template.Parallel.Run.{
  final_terminal, saved_done, finish, integration, stream_phase,
}

module _ (c : List Text) where
  abbrev KeepsClaimed : {A : Type 0} → (Hub → Phase A × Hub) → Type 0
  KeepsClaimed f = (hub : Hub) → hub.claimed ≡ c → (f hub).1.claimed ≡ c

  bind-claimed :
      {A B : Type 0} (x : Phase A × Hub) (next : A → Hub → Phase B × Hub)
      → x.1.claimed ≡ c
      → ((a : A) → KeepsClaimed (next a))
      → (x >>> next).1.claimed ≡ c
  unfolding ◌>>>◌
  bind-claimed (go a, hub) next s keeps = keeps a hub s
  bind-claimed (halt why, hub) next s keeps = s
  bind-claimed (escape e, hub) next s keeps = s

  each-claimed :
      (body : StreamPlan → Hub → Phase (Unit {0}) × Hub) (plans : List StreamPlan)
      → ((p : StreamPlan) → KeepsClaimed (body p))
      → KeepsClaimed (each body plans)
  unfolding each
  each-claimed body [] keeps hub s = s
  each-claimed body (p ∷ plans) keeps hub s =
      bind-claimed (body p hub) (λ u h. each body plans h) (keeps p hub s)
        (λ u h t. each-claimed body plans keeps h t)

  if-claimed :
      {A : Type 0} (b : Bool) (x y : Phase A × Hub)
      → x.1.claimed ≡ c
      → y.1.claimed ≡ c
      → (if b then x else y).1.claimed ≡ c
  if-claimed true x y sx sy = sx
  if-claimed false x y sx sy = sy

  renew_all-claimed :
      (world : HubWorld) (opts : Options) (names : List Text) (hub : Hub)
      → hub.claimed ≡ c
      → (renew_all world opts names hub).claimed ≡ c
  unfolding renew_all lease_call
  renew_all-claimed world opts [] hub s = s
  renew_all-claimed world opts (n ∷ names) hub s = renew_all-claimed world opts names _ s

  pub tick-claimed :
      (world : HubWorld) (opts : Options) (t : Text) (hub : Hub)
      → hub.claimed ≡ c
      → (tick world opts t hub).claimed ≡ c
  unfolding tick
  tick-claimed world opts t hub s = renew_all-claimed world opts hub.claimed _ s

  provisioned_as-claimed :
      (x : Result ProvisionError (List StreamPlan) × Log)
      → KeepsClaimed (λ hub. provisioned_as hub x)
  unfolding provisioned_as
  provisioned_as-claimed (err e, log) hub s = s
  provisioned_as-claimed (ok ps, log) hub s = s

  join_serial-claimed :
      (world : HubWorld) (opts : Options) (p : StreamPlan) (r : Result StreamError StreamResult)
      → KeepsClaimed (join_serial world opts p r)
  unfolding join_serial record_result put_result
  join_serial-claimed world opts p (err e) hub s = s
  join_serial-claimed world opts p (ok r) hub s = tick-claimed world opts (text "IN_PROGRESS") _ s

  run_mode-claimed :
      (mode : Bool) (world : HubWorld) (opts : Options) (plans : List StreamPlan)
      → KeepsClaimed (run_mode mode world opts plans)
  unfolding run_mode serial_one join_future all_joined record_result put_result
  run_mode-claimed true world opts plans hub s =
      bind-claimed (each (join_future world opts) (world.completed plans) hub) _
        (each-claimed (join_future world opts) (world.completed plans)
          (λ p h t. tick-claimed world opts (text "IN_PROGRESS") _ t) hub s)
        (λ u h t. t)
  run_mode-claimed false world opts plans hub s =
      each-claimed (serial_one world opts) plans
        (λ p h t. join_serial-claimed world opts p (run_one_stream world opts p) h t) hub s

  stream_phase-claimed :
      (world : HubWorld) (opts : Options) (plans : List StreamPlan)
      → KeepsClaimed (stream_phase world opts plans)
  unfolding stream_phase has_worktree fan_out ticked put_result run_streams
  stream_phase-claimed world opts plans hub s =
      bind-claimed (each has_worktree plans hub) _
        (each-claimed has_worktree plans
          (λ p h t. if-claimed (is_empty (text_or_empty p.worktree)) _ (go tt, h) t t) hub s)
        (λ u h1 s1.
          bind-claimed (each fan_out plans h1) _ (each-claimed fan_out plans (λ p h t. t) h1 s1)
            (λ v h2 s2.
              bind-claimed (ticked world opts (text "IN_PROGRESS") h2) _
                (tick-claimed world opts (text "IN_PROGRESS") h2 s2)
                (λ w h3 s3. run_mode-claimed opts.concurrent world opts plans h3 s3)))

  -- What git answers for one branch leaves the names.
  pushed_as-claimed :
      (name : Text) (x : Result Text (Unit {0}) × Log) → KeepsClaimed (λ hub. pushed_as name hub x)
  unfolding pushed_as amend_result
  pushed_as-claimed name (ok u, log) hub s = s
  pushed_as-claimed name (err e, log) hub s = s

  integrated_as-claimed :
      (x : Result IntegrationError Text × Log) → KeepsClaimed (λ hub. integrated_as hub x)
  unfolding integrated_as
  integrated_as-claimed (ok wt, log) hub s = s
  integrated_as-claimed (err e, log) hub s = s

  merged_as-claimed :
      (name : Text) (x : Result Text (Unit {0}) × Log) → KeepsClaimed (λ hub. merged_as name hub x)
  unfolding merged_as amend_result
  merged_as-claimed name (ok u, log) hub s = s
  merged_as-claimed name (err e, log) hub s = s

  integration_pushed-claimed :
      (name : Text) (x : Result Text (Unit {0}) × Log)
      → KeepsClaimed (λ hub. integration_pushed_as name hub x)
  unfolding integration_pushed_as
  integration_pushed-claimed name (ok u, log) hub s = s
  integration_pushed-claimed name (err e, log) hub s = s

  saved_done-claimed :
      (opts : Options) (term : Terminal) (handoff : Fields) (problems : List Problem)
      → KeepsClaimed (saved_done opts term handoff problems)
  unfolding saved_done
  saved_done-claimed opts term handoff [] hub s = s
  saved_done-claimed opts term handoff (p ∷ ps) hub s = s

  integration-claimed :
      (world : HubWorld) (opts : Options) (plans : List StreamPlan)
      → KeepsClaimed (integration world opts plans)
  unfolding integration if_pushing push_one integrate merge_one push_integration finish
  integration-claimed world opts plans hub s =
      bind-claimed (if opts.push then each (push_one world) plans hub else (go tt, hub)) _
        (if-claimed opts.push (each (push_one world) plans hub) (go tt, hub)
          (each-claimed (push_one world) plans
            (λ p h t. if-claimed _ (go tt, h) _ t (pushed_as-claimed p.name _ h t)) hub s)
          s)
        (λ u h1 s1.
          bind-claimed (integrate world opts h1) _ (integrated_as-claimed _ h1 s1) (λ wt h2 s2.
            bind-claimed (each (merge_one world opts wt) plans h2) _
              (each-claimed (merge_one world opts wt) plans
                (λ p h t. if-claimed _ (go tt, h) _ t (merged_as-claimed p.name _ h t)) h2 s2)
              (λ v h3 s3.
                bind-claimed (if opts.push then push_integration world opts wt h3 else (go tt, h3))
                  _
                  (if-claimed opts.push (push_integration world opts wt h3) (go tt, h3)
                    (integration_pushed-claimed opts.integration_branch _ h3 s3) s3)
                  (λ w h4 s4.
                    saved_done-claimed opts (final_terminal world opts) _ _ _
                      (tick-claimed world opts (value (final_terminal world opts)) h4 s4)))))

  -- What comes after the claims leaves the names.
  pub after_claims-claimed :
      (world : HubWorld) (opts : Options) (plans : List StreamPlan)
      → KeepsClaimed (λ hub. provision world opts plans hub >>> λ ready hub1.
          stream_phase world opts ready hub1 >>> λ u hub2. integration world opts ready hub2)
  unfolding provision
  after_claims-claimed world opts plans hub s =
      bind-claimed (provision world opts plans hub) _
        (if-claimed opts.skip_provision (go plans, hub) _ s (provisioned_as-claimed _ hub s))
        (λ ready h1 s1.
          bind-claimed (stream_phase world opts ready h1) _
            (stream_phase-claimed world opts ready h1 s1)
            (λ u h2 s2. integration-claimed world opts ready h2 s2))

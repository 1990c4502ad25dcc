-- ===== src/Parallel/Success.antt =====
-- memory/supervisor_parallel.py: what a run that returns exit code 0 has done.
pub mod Whole
use agentic_loop_template.Base.{
  Bool, true, false, not, ◌||◌, List, [], ◌∷◌, Option, none, some, Result, ok, err, ◌≡◌, ◌≢◌, refl,
  sym, ap, ◌∙◌, subst, inl, inr, In, Bool-cases, Result-cases, if◌then◌else◌, raise_if,
  raise_if-eq-ok, ◌>>◌,
}
use agentic_loop_template.Base.Int.{pos}
use agentic_loop_template.Base.Text.{Text, text, text_eq, is_empty}
use agentic_loop_template.Json.{Crash, Fields, object, string, get, get_or}
use agentic_loop_template.Errors.{ValueError}
use agentic_loop_template.Handoff.{Problem, validate_handoff}
use agentic_loop_template.Streams.Plans.{
  StreamPlan, all_distinct, plan_names, validate_stream_plans,
}
use agentic_loop_template.Streams.Provision.{ProvisionError, provision_stream_worktrees}
use agentic_loop_template.Streams.Provision.Keeps.{SameStreams, SameStreams-refl, provision-AllFit}
use agentic_loop_template.StreamGit.{Log, merge_stream_branch}
use agentic_loop_template.Supervisor.Roles.{Terminal, value}
use agentic_loop_template.Supervisor.Loop.{Outcome}
use agentic_loop_template.Supervisor.Start.{run_loop}
use agentic_loop_template.Parallel.Hub.{Hub, HubWorld, Options, StreamError, tick}
use agentic_loop_template.Parallel.Stream.{
  text_or_empty, new_result, is_pr_ready, config_of, violations_of, gated, after_loop,
  run_one_stream, or_blocked, worker, is_blocked,
}
use agentic_loop_template.Parallel.Phases.{
  Phase, go, halt, escape, ◌>>>◌, each, claim_one, provisioned_as, provision, has_worktree, fan_out,
  ticked, run_streams, push_one, integrate, merged_as, merge_one, push_integration, if_pushing,
}
use agentic_loop_template.Parallel.Run.{
  HubOutcome, done_handoff, final_terminal, outcome_of, saved_done, finish, integration,
  stream_phase, phases, blocked_outcome, returned, released_after, fresh, run_valid, run_parallel,
}
use agentic_loop_template.Parallel.Binds.{bind-go, each-go}
use agentic_loop_template.StreamGit.Worktree.{ensure_integration_worktree}
use agentic_loop_template.Parallel.Merges.{MergedAll, PushedIfWanted, tick-log}
use agentic_loop_template.Parallel.Joined.{Passed}
use agentic_loop_template.Parallel.Decision.{IsCompletion, run_streams-all}

-- A stream that passed: it has a worktree, its loop returned PR_READY, and the gate found no violation where it
-- is asked.
pub record StreamPassed (world : HubWorld) (opts : Options) (p : StreamPlan) : Type 0 where
  pub has_worktree : is_empty (text_or_empty p.worktree) ≡ false
  pub outcome : Outcome
  pub ran :
      (run_loop (world.stream_world p.name) (config_of world opts p) (world.stream_run p.name)).0
      ≡ ok outcome
  pub ready : is_pr_ready outcome.terminal ≡ true
  pub inside : violations_of world opts p ≡ ok []

gated-inside :
    (p : StreamPlan) (o : Outcome) (v : Result ValueError (List Text))
    → is_blocked (or_blocked p (gated p o v)).status ≡ false
    → v ≡ ok []
unfolding gated or_blocked new_result is_blocked
gated-inside p o (err e) h = cc h
gated-inside p o (ok []) h = refl
gated-inside p o (ok (x ∷ xs)) h = cc h

after_loop-passed :
    (world : HubWorld) (opts : Options) (p : StreamPlan) (r : Result Crash Outcome)
    → is_blocked (or_blocked p (after_loop world opts p r)).status ≡ false
    → (o : Outcome) × (r ≡ ok o)
      × (is_pr_ready o.terminal ≡ true)
      × (violations_of world opts p ≡ ok [])
unfolding after_loop or_blocked new_result is_blocked
after_loop-passed world opts p (err c) h = cc h
after_loop-passed world opts p (ok o) h = elim (Bool-cases (is_pr_ready o.terminal)) [
  | inl ready ↦ (o, refl, ready, gated-inside p o (violations_of world opts p) (rw ready at h))
  | inr other ↦ cc (rw other at h)
]

pub Passed-StreamPassed :
    (world : HubWorld) (opts : Options) (p : StreamPlan)
    → Passed world opts p
    → StreamPassed world opts p
unfolding worker run_one_stream or_blocked new_result is_blocked
Passed-StreamPassed world opts p passed = elim (Bool-cases (is_empty (text_or_empty p.worktree))) [
  | inl none_there ↦ cc (rw none_there at passed)
  | inr there ↦
      let (o, ran, ready, inside) = after_loop-passed world opts p _ (rw there at passed) in
      record { has_worktree = there; outcome = o; ran = ran; ready = ready; inside = inside }
]

-- What the phases of a run that went on to its end have done.
pub record Integrated (world : HubWorld) (opts : Options) (plans : List StreamPlan) (hub1 : Hub)
    : Type 0 where
  -- the plans with their worktrees
  pub ready : List StreamPlan
  pub same : SameStreams plans ready
  pub passed : (p : StreamPlan) → In p ready → StreamPassed world opts p
  -- the integration worktree that was placed, and the merges in it from there on
  pub worktree : Text
  pub before : Log
  pub placed : Log
  pub after : Log
  pub placement :
      ensure_integration_worktree world.git opts.hub opts.wt_base opts.integration_branch
        opts.base_ref before
      ≡ (ok worktree, placed)
  pub merges : MergedAll world opts worktree ready placed after
  pub pushed : PushedIfWanted world opts worktree after hub1.log
  pub handoff : Fields
  pub done : get (text "status") handoff ≡ string (text "DONE")
  pub accepted : validate_handoff world.schema (object handoff) true ≡ []
  pub saved : hub1.last_handoff ≡ some handoff

-- A run that finishes has saved a DONE handoff without a problem, and has given git no further command.
pub finish-go :
    (world : HubWorld) (opts : Options) (hub : Hub) (o : HubOutcome)
    → (finish world opts hub).0 ≡ go o
    → (handoff : Fields) × (get (text "status") handoff ≡ string (text "DONE"))
      × (validate_handoff world.schema (object handoff) true ≡ [])
      × ((finish world opts hub).1.last_handoff ≡ some handoff)
      × ((finish world opts hub).1.log ≡ hub.log)
unfolding finish saved_done done_handoff get get_or text_eq
finish-go world opts hub o e =
    let term = final_terminal world opts in
    let hub1 = tick world opts (value term) hub in
    let handoff = done_handoff world opts hub1.results in
    by_problems term handoff hub1 (validate_handoff world.schema (object handoff) true) e refl refl
      (tick-log world opts (value term) hub)
  where
    by_problems :
        (term : Terminal) (handoff : Fields) (hub1 : Hub) (problems : List Problem)
        → (saved_done opts term handoff problems hub1).0 ≡ go o
        → validate_handoff world.schema (object handoff) true ≡ problems
        → get (text "status") handoff ≡ string (text "DONE")
        → hub1.log ≡ hub.log
        → (h : Fields) × (get (text "status") h ≡ string (text "DONE"))
          × (validate_handoff world.schema (object h) true ≡ [])
          × ((saved_done opts term handoff problems hub1).1.last_handoff ≡ some h)
          × ((saved_done opts term handoff problems hub1).1.log ≡ hub.log)
    by_problems term handoff hub1 [] h v d l = (handoff, d, v, refl, l)
    by_problems term handoff hub1 (x ∷ xs) h v d l = cc h

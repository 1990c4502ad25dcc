-- ===== src/Parallel/Success/Whole.antt =====
-- memory/supervisor_parallel.py: what a whole run that returns exit code 0 has done.
use agentic_loop_template.Base.{
  Bool, true, false, not, List, [], ◌∷◌, some, Result, ok, err, ◌≡◌, refl, sym, ap, ◌∙◌, subst, ◌⊎◌,
  inl, inr, In, if◌then◌else◌, raise_if-eq-ok, arith,
}
use agentic_loop_template.Base.Text.{Text, text, is_empty}
use agentic_loop_template.Json.{Fields, object, string, get}
use agentic_loop_template.Errors.{need_one_stream, duplicate_stream_names}
use agentic_loop_template.Handoff.{validate_handoff}
use agentic_loop_template.Streams.Plans.{
  StreamPlan, all_distinct, plan_names, validate_stream_plans,
}
use agentic_loop_template.Streams.Provision.{ProvisionError, provision_stream_worktrees}
use agentic_loop_template.Streams.Provision.Keeps.{SameStreams, SameStreams-refl, provision-AllFit}
use agentic_loop_template.StreamGit.{Log}
use agentic_loop_template.Parallel.Hub.{Hub, HubWorld, Options, lease_call, release_all}
use agentic_loop_template.Parallel.Phases.{
  Phase, go, each, claim_one, provisioned_as, provision, has_worktree, fan_out, ticked, push_one,
  integrate, merge_one, push_integration, if_pushing,
}
use agentic_loop_template.Parallel.Run.{HubOutcome, integration, stream_phase, phases}
use agentic_loop_template.Parallel.Binds.{bind-go}
use agentic_loop_template.StreamGit.Worktree.{ensure_integration_worktree}
use agentic_loop_template.Parallel.Merges.{
  MergedAll, PushedIfWanted, integrate-placed, each-MergedAll, push-PushedIfWanted,
}
use agentic_loop_template.Parallel.Decision.{IsCompletion, run_streams-all}
use agentic_loop_template.Parallel.Success.{
  StreamPassed, Passed-StreamPassed, Integrated, finish-go,
}

if-go :
    {A : Type 0} (c : Bool) (x y : Phase A × Hub) {a : A}
    → (if c then x else y).0 ≡ go a
    → (x.0 ≡ go a) ⊎ (y.0 ≡ go a)
if-go true x y h = inl h
if-go false x y h = inr h

provisioned_as-go :
    (hub : Hub) (x : Result ProvisionError (List StreamPlan) × Log) (ready : List StreamPlan)
    → (provisioned_as hub x).0 ≡ go ready
    → x.0 ≡ ok ready
unfolding provisioned_as
provisioned_as-go hub (err e, log) ready h = cc h
provisioned_as-go hub (ok ps, log) ready h = cc h

provision-SameStreams :
    (world : HubWorld) (opts : Options) (plans ready : List StreamPlan) (hub : Hub)
    → (provision world opts plans hub).0 ≡ go ready
    → SameStreams plans ready
unfolding provision
provision-SameStreams world opts plans ready hub e =
    let made =
      provision_stream_worktrees world.git opts.hub opts.wt_base opts.cycle_id opts.base_ref plans
        hub.log in
    elim (if-go opts.skip_provision (go plans, hub) (provisioned_as hub made) e) [
      | inl skipped ↦ subst (SameStreams plans) (cc skipped) (SameStreams-refl plans)
      | inr done ↦
          (provision-AllFit world.git opts.hub opts.wt_base opts.cycle_id opts.base_ref plans
              hub.log).same
            ready (provisioned_as-go hub made ready done)
    ]

pub SameStreams-names :
    (ps qs : List StreamPlan) → SameStreams ps qs → plan_names qs ≡ plan_names ps
unfolding plan_names
SameStreams-names [] [] s = refl
SameStreams-names (p ∷ ps) (q ∷ qs) ((name, paths), s) =
    let rest = SameStreams-names ps qs s in rw (name, rest) refl
SameStreams-names [] (q ∷ qs) s = elim s [ ]
SameStreams-names (p ∷ ps) [] s = elim s [ ]

pub valid-distinct :
    (plans : List StreamPlan)
    → validate_stream_plans plans ≡ ok tt
    → all_distinct (plan_names plans) ≡ true
unfolding validate_stream_plans
valid-distinct plans valid =
    let (some_plan, h) = raise_if-eq-ok (is_empty plans) need_one_stream _ valid in
    let (distinct, h2) =
      raise_if-eq-ok (not (all_distinct (plan_names plans))) duplicate_stream_names _ h in
    ground arith

stream_phase-all :
    (world : HubWorld) (opts : Options) (plans : List StreamPlan) (hub : Hub)
    → IsCompletion world plans
    → all_distinct (plan_names plans) ≡ true
    → (stream_phase world opts plans hub).0 ≡ go tt
    → (p : StreamPlan) → In p plans
    → StreamPassed world opts p
unfolding stream_phase
stream_phase-all world opts plans hub complete distinct e p m =
    let (u1, g1, e1, a1) = bind-go (each has_worktree plans hub) _ e in
    let (u2, g2, e2, a2) = bind-go (each fan_out plans (each has_worktree plans hub).1) _ e1 in
    let (u3, g3, e3, a3) = bind-go (ticked world opts (text "IN_PROGRESS") _) _ e2 in
    Passed-StreamPassed world opts p (run_streams-all world opts plans _ complete distinct e3 p m)

-- The end of the phases: what the integration did.
pub record Finished (world : HubWorld) (opts : Options) (ready : List StreamPlan) (hub1 : Hub)
    : Type 0 where
  pub worktree : Text
  pub before : Log
  pub placed : Log
  pub after : Log
  pub placement :
      ensure_integration_worktree world.git opts.hub opts.wt_base opts.integration_branch
        opts.base_ref before
      ≡ (ok worktree, placed)
  pub merges : MergedAll world opts worktree ready placed after
  pub pushed : PushedIfWanted world opts worktree after hub1.log
  pub handoff : Fields
  pub done : get (text "status") handoff ≡ string (text "DONE")
  pub accepted : validate_handoff world.schema (object handoff) true ≡ []
  pub saved : hub1.last_handoff ≡ some handoff

integration-Finished :
    (world : HubWorld) (opts : Options) (ready : List StreamPlan) (hub : Hub) (o : HubOutcome)
    → (integration world opts ready hub).0 ≡ go o
    → Finished world opts ready (integration world opts ready hub).1
unfolding integration
integration-Finished world opts ready hub o e =
    let pushed = if_pushing opts (each (push_one world) ready) hub in
    let (u1, g1, e1, a1) = bind-go pushed _ e in
    let placed = integrate world opts pushed.1 in
    let (wt, g2, e2, a2) = bind-go placed _ e1 in
    let merges = each (merge_one world opts wt) ready placed.1 in
    let (u3, g3, e3, a3) = bind-go merges _ e2 in
    let last = if_pushing opts (push_integration world opts wt) merges.1 in
    let (u4, g4, e4, a4) = bind-go last _ e3 in
    let (handoff, done, accepted, saved, log) = finish-go world opts last.1 o e4 in
    let ended = a1 ∙ a2 ∙ a3 ∙ a4 in
    record {
      worktree = wt;
      before = pushed.1.log;
      placed = placed.1.log;
      after = merges.1.log;
      placement = integrate-placed world opts pushed.1 wt g2;
      merges = each-MergedAll world opts wt ready placed.1 g3;
      pushed =
          subst (PushedIfWanted world opts wt merges.1.log)
            (sym (ap (λ (h : Hub). h.log) ended ∙ log))
            (push-PushedIfWanted world opts wt merges.1 g4);
      handoff = handoff;
      done = done;
      accepted = accepted;
      saved = ap (λ (h : Hub). h.last_handoff) ended ∙ saved;
    }

pub phases-Integrated :
    (world : HubWorld) (opts : Options) (plans : List StreamPlan) (hub : Hub) (o : HubOutcome)
    → ((ps : List StreamPlan) → IsCompletion world ps)
    → all_distinct (plan_names plans) ≡ true
    → (phases world opts plans hub).0 ≡ go o
    → Integrated world opts plans (phases world opts plans hub).1
unfolding phases
phases-Integrated world opts plans hub o complete distinct e =
    let claims = each (claim_one world opts) plans hub in
    let (u1, g1, e1, a1) = bind-go claims _ e in
    let made = provision world opts plans claims.1 in
    let (ready, g2, e2, a2) = bind-go made _ e1 in
    let worked = stream_phase world opts ready made.1 in
    let (u3, g3, e3, a3) = bind-go worked _ e2 in
    let same = provision-SameStreams world opts plans ready claims.1 g2 in
    let f = integration-Finished world opts ready worked.1 o e3 in
    record {
      ready = ready;
      same = same;
      passed =
          stream_phase-all world opts ready made.1 (complete ready)
            (ap all_distinct (SameStreams-names plans ready same) ∙ distinct) g3;
      worktree = f.worktree;
      before = f.before;
      placed = f.placed;
      after = f.after;
      placement = f.placement;
      merges = f.merges;
      pushed =
          subst (PushedIfWanted world opts f.worktree f.after)
            (sym (ap (λ (h : Hub). h.log) (a1 ∙ a2 ∙ a3))) f.pushed;
      handoff = f.handoff;
      done = f.done;
      accepted = f.accepted;
      saved = ap (λ (h : Hub). h.last_handoff) (a1 ∙ a2 ∙ a3) ∙ f.saved;
    }

pub release_all-handoff :
    (world : HubWorld) (names : List Text) (hub : Hub)
    → (release_all world names hub).last_handoff ≡ hub.last_handoff
unfolding release_all lease_call
release_all-handoff world [] hub = refl
release_all-handoff world (n ∷ names) hub = release_all-handoff world names _

-- ===== src/Parallel/Merges.antt =====
-- memory/supervisor_parallel.py: what git did from the placement of the integration worktree to the end of a run.
use agentic_loop_template.Base.{
  Bool, true, false, List, [], ◌∷◌, Result, ok, err, ◌≡◌, refl, sym, ap, subst, ◌⊎◌, inl, inr,
  if◌then◌else◌,
}
use agentic_loop_template.Base.Text.{Text, text, is_empty}
use agentic_loop_template.Streams.Plans.{StreamPlan}
use agentic_loop_template.StreamGit.{Log, push_branch, merge_stream_branch}
use agentic_loop_template.StreamGit.Worktree.{IntegrationError, ensure_integration_worktree}
use agentic_loop_template.Parallel.Hub.{
  Hub, HubWorld, Options, lease_call, renew_all, release_all, tick, amend_result,
}
use agentic_loop_template.Parallel.Stream.{text_or_empty}
use agentic_loop_template.Parallel.Phases.{
  Phase, go, each, integrated_as, integrate, merged_as, merge_one, integration_pushed_as,
  push_integration, if_pushing,
}
use agentic_loop_template.Parallel.Binds.{bind-go}

-- The merges of the streams' branches in one worktree, in the order of the plans, each from the log that the one before it left:
-- all returned.
pub data MergedAll (world : HubWorld) (opts : Options) (wt : Text)
    : List StreamPlan → Log → Log → Type 0 where
  none_left : {log : Log} → MergedAll world opts wt [] log log
  no_branch :
      {p : StreamPlan} {ps : List StreamPlan} {log after : Log}
      → is_empty (text_or_empty p.branch) ≡ true
      → MergedAll world opts wt ps log after
      → MergedAll world opts wt (p ∷ ps) log after
  merged_branch :
      {p : StreamPlan} {ps : List StreamPlan} {log between after : Log}
      → is_empty (text_or_empty p.branch) ≡ false
      → merge_stream_branch world.git wt
          (text_or_empty p.branch)
          opts.integration_branch
          opts.base_ref
          log
        ≡ (ok tt, between)
      → MergedAll world opts wt ps between after
      → MergedAll world opts wt (p ∷ ps) log after

module _ (world : HubWorld) (opts : Options) where
  -- The integration branch was pushed from the worktree, where pushes are wanted.
  abbrev pub PushedIfWanted : Text → Log → Log → Type 0
  PushedIfWanted wt log after =
      ((opts.push ≡ false) × (after ≡ log))
      ⊎ ((opts.push ≡ true)
          × (push_branch world.git wt opts.integration_branch (text "origin") log ≡ (ok tt, after)))

  integrated_as-go :
      (hub : Hub) (x : Result IntegrationError Text × Log) (wt : Text)
      → (integrated_as hub x).0 ≡ go wt
      → x ≡ (ok wt, (integrated_as hub x).1.log)
  unfolding integrated_as
  integrated_as-go hub (err e, log) wt h = cc h
  integrated_as-go hub (ok t, log) wt h = let same : t ≡ wt = cc h in ap (λ w. (ok w, log)) same

  pub integrate-placed :
      (hub : Hub) (wt : Text)
      → (integrate world opts hub).0 ≡ go wt
      → ensure_integration_worktree world.git opts.hub opts.wt_base opts.integration_branch
          opts.base_ref hub.log
        ≡ (ok wt, (integrate world opts hub).1.log)
  unfolding integrate
  integrate-placed hub wt h = integrated_as-go hub _ wt h

  merged_as-go :
      (name : Text) (hub : Hub) (x : Result Text (Unit {0}) × Log)
      → (merged_as name hub x).0 ≡ go tt
      → x ≡ (ok tt, (merged_as name hub x).1.log)
  unfolding merged_as amend_result
  merged_as-go name hub (err e, log) h = cc h
  merged_as-go name hub (ok u, log) h = refl

  -- One stream's merge that let the run go on.
  merge_one-went_on :
      (wt : Text) (p : StreamPlan) (hub : Hub)
      → (merge_one world opts wt p hub).0 ≡ go tt
      → ((is_empty (text_or_empty p.branch) ≡ true)
          × ((merge_one world opts wt p hub).1.log ≡ hub.log))
        ⊎ ((is_empty (text_or_empty p.branch) ≡ false)
            × (merge_stream_branch world.git wt
                  (text_or_empty p.branch)
                  opts.integration_branch
                  opts.base_ref
                  hub.log
                ≡ (ok tt, (merge_one world opts wt p hub).1.log)))
  unfolding merge_one
  merge_one-went_on wt p hub h = by_branch (is_empty (text_or_empty p.branch)) refl h
    where
      merge : Phase (Unit {0}) × Hub
      merge = merged_as p.name hub (
          merge_stream_branch world.git wt (text_or_empty p.branch) opts.integration_branch
            opts.base_ref hub.log)

      by_branch :
          (without : Bool)
          → is_empty (text_or_empty p.branch) ≡ without
          → (if without then (go tt, hub) else merge).0 ≡ go tt
          → ((is_empty (text_or_empty p.branch) ≡ true)
              × ((if without then (go tt, hub) else merge).1.log ≡ hub.log))
            ⊎ ((is_empty (text_or_empty p.branch) ≡ false)
                × (merge_stream_branch world.git wt
                      (text_or_empty p.branch)
                      opts.integration_branch
                      opts.base_ref
                      hub.log
                    ≡ (ok tt, (if without then (go tt, hub) else merge).1.log)))
      by_branch true e g = inl (e, refl)
      by_branch false e g = inr (e, merged_as-go p.name hub _ g)

  pub each-MergedAll :
      (wt : Text) (ps : List StreamPlan) (hub : Hub)
      → (each (merge_one world opts wt) ps hub).0 ≡ go tt
      → MergedAll world opts wt ps hub.log (each (merge_one world opts wt) ps hub).1.log
  unfolding each
  each-MergedAll wt [] hub h = none_left
  each-MergedAll wt (p ∷ ps) hub h =
      let (u, first, rest, same) = bind-go (merge_one world opts wt p hub) _ h in
      let later = each-MergedAll wt ps (merge_one world opts wt p hub).1 rest in
      subst (λ (x : Hub). MergedAll world opts wt (p ∷ ps) hub.log x.log) (sym same)
        (elim (merge_one-went_on wt p hub first) [
          | inl (without, kept) ↦ no_branch without (
              subst
                (λ log.
                  MergedAll world opts wt ps log
                    (each (merge_one world opts wt) ps (merge_one world opts wt p hub).1).1.log)
                kept later)
          | inr (with_branch, merged) ↦ merged_branch with_branch merged later
        ])

  integration_pushed-go :
      (hub : Hub) (x : Result Text (Unit {0}) × Log)
      → (integration_pushed_as opts.integration_branch hub x).0 ≡ go tt
      → x ≡ (ok tt, (integration_pushed_as opts.integration_branch hub x).1.log)
  unfolding integration_pushed_as
  integration_pushed-go hub (err e, log) h = cc h
  integration_pushed-go hub (ok u, log) h = refl

  pub push-PushedIfWanted :
      (wt : Text) (hub : Hub)
      → (if_pushing opts (push_integration world opts wt) hub).0 ≡ go tt
      → PushedIfWanted wt hub.log (if_pushing opts (push_integration world opts wt) hub).1.log
  unfolding if_pushing push_integration
  push-PushedIfWanted wt hub h = by_wish opts.push refl h
    where
      by_wish :
          (wanted : Bool)
          → opts.push ≡ wanted
          → (if wanted then push_integration world opts wt hub else (go tt, hub)).0 ≡ go tt
          → PushedIfWanted wt hub.log
              (if wanted then push_integration world opts wt hub else (go tt, hub)).1.log
      by_wish true e g = inr (e, integration_pushed-go hub _ g)
      by_wish false e g = inl (e, refl)

  renew_all-log : (names : List Text) (hub : Hub) → (renew_all world opts names hub).log ≡ hub.log
  unfolding renew_all lease_call
  renew_all-log [] hub = refl
  renew_all-log (n ∷ names) hub = renew_all-log names _

  pub tick-log : (terminal : Text) (hub : Hub) → (tick world opts terminal hub).log ≡ hub.log
  unfolding tick
  tick-log terminal hub = renew_all-log hub.claimed _

  pub release_all-log :
      (names : List Text) (hub : Hub) → (release_all world names hub).log ≡ hub.log
  unfolding release_all lease_call
  release_all-log [] hub = refl
  release_all-log (n ∷ names) hub = release_all-log names _

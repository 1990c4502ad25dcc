-- ===== src/Parallel/Claims.antt =====
-- memory/supervisor_parallel.py: a run that succeeds has claimed a lease for every plan.
use agentic_loop_template.Base.{
  List, [], ◌∷◌, ◌++◌, Result, ok, err, ◌≡◌, refl, sym, ap, ◌∙◌, subst, In, inl, inr,
}
use agentic_loop_template.Base.Int.{pos}
use agentic_loop_template.Base.Text.{Text, text}
use agentic_loop_template.Errors.{ValueError}
use agentic_loop_template.Lease.Requests.{Reply}
use agentic_loop_template.Streams.Plans.{StreamPlan, validate_stream_plans}
use agentic_loop_template.Parallel.Hub.{Hub, HubWorld, Options, lease_call, release_all, tick}
use agentic_loop_template.Parallel.Phases.{Phase, go, halt, escape, each, claimed_as, claim_one}
use agentic_loop_template.Parallel.Run.{
  HubOutcome, phases, blocked_outcome, returned, released_after, fresh, run_valid, run_parallel,
}
use agentic_loop_template.Parallel.Binds.{bind-go}
use agentic_loop_template.Parallel.Claimed.{after_claims-claimed}

In-before : (raw : Text) (xs ys : List Text) → In raw xs → In raw (xs ++ ys)
In-before raw [] ys m = elim m [ ]
In-before raw (x ∷ xs) ys (inl here) = inl here
In-before raw (x ∷ xs) ys (inr later) = inr (In-before raw xs ys later)

In-last : (raw : Text) (xs : List Text) → In raw (xs ++ raw ∷ [])
In-last raw [] = inl refl
In-last raw (x ∷ xs) = inr (In-last raw xs)

module _ (world : HubWorld) (opts : Options) where
  claim_one-adds :
      (p : StreamPlan) (hub : Hub)
      → (claim_one world opts p hub).0 ≡ go tt
      → (claim_one world opts p hub).1.claimed ≡ hub.claimed ++ p.name ∷ []
  unfolding claim_one lease_call claimed_as
  claim_one-adds p hub e = by_answer _ hub.claimed refl e
    where
      by_answer :
          (x : Result ValueError Reply × Hub) (c : List Text)
          → x.1.claimed ≡ c
          → (claimed_as p.name x).0 ≡ go tt
          → (claimed_as p.name x).1.claimed ≡ c ++ p.name ∷ []
      by_answer (err why, h) c same g = cc g
      by_answer (ok reply, h) c same g = ap (λ ns. ns ++ p.name ∷ []) same

  claims-keep :
      (raw : Text) (plans : List StreamPlan) (hub : Hub)
      → (each (claim_one world opts) plans hub).0 ≡ go tt
      → In raw hub.claimed
      → In raw (each (claim_one world opts) plans hub).1.claimed
  unfolding each
  claims-keep raw [] hub e m = m
  claims-keep raw (q ∷ plans) hub e m =
      let (u, first, rest, same) = bind-go (claim_one world opts q hub) _ e in
      let there =
        subst (In raw) (sym (claim_one-adds q hub first)) (In-before raw hub.claimed _ m) in
      subst (λ (h : Hub). In raw h.claimed) (sym same)
        (claims-keep raw plans (claim_one world opts q hub).1 rest there)

  claims-all :
      (plans : List StreamPlan) (hub : Hub) (p : StreamPlan)
      → (each (claim_one world opts) plans hub).0 ≡ go tt
      → In p plans
      → In p.name (each (claim_one world opts) plans hub).1.claimed
  unfolding each
  claims-all [] hub p e m = elim m [ ]
  claims-all (q ∷ plans) hub p e (inl here) =
      let (u, first, rest, same) = bind-go (claim_one world opts q hub) _ e in
      let there = subst (In p.name) (sym (claim_one-adds q hub first)) (
        subst (λ (x : StreamPlan). In p.name (hub.claimed ++ x.name ∷ [])) here
          (In-last p.name hub.claimed)) in
      subst (λ (h : Hub). In p.name h.claimed) (sym same)
        (claims-keep p.name plans (claim_one world opts q hub).1 rest there)
  claims-all (q ∷ plans) hub p e (inr later) =
      let (u, first, rest, same) = bind-go (claim_one world opts q hub) _ e in
      subst (λ (h : Hub). In p.name h.claimed) (sym same)
        (claims-all plans (claim_one world opts q hub).1 p rest later)

  phases-claimed :
      (plans : List StreamPlan) (hub : Hub) (o : HubOutcome) (p : StreamPlan)
      → (phases world opts plans hub).0 ≡ go o
      → In p plans
      → In p.name (phases world opts plans hub).1.claimed
  unfolding phases
  phases-claimed plans hub o p e m =
      let claims = each (claim_one world opts) plans hub in
      let (u, claimed, rest, same) = bind-go claims _ e in
      let kept = after_claims-claimed claims.1.claimed world opts plans claims.1 refl in
      subst (In p.name) (sym (ap (λ (h : Hub). h.claimed) same ∙ kept))
        (claims-all plans hub p claimed m)

  pub release_all-claimed :
      (names : List Text) (hub : Hub) → (release_all world names hub).claimed ≡ hub.claimed
  unfolding release_all lease_call
  release_all-claimed [] hub = refl
  release_all-claimed (n ∷ names) hub = release_all-claimed names _

  returned-claimed :
      (x : Phase HubOutcome × Hub) (o : HubOutcome) (raw : Text)
      → ((o1 : HubOutcome) → x.0 ≡ go o1 → In raw x.1.claimed)
      → (released_after world (returned world opts x)).0 ≡ ok o
      → o.exit_code ≡ pos 0
      → In raw (released_after world (returned world opts x)).1.claimed
  unfolding returned released_after blocked_outcome
  returned-claimed (go o1, hub) o raw done h zero =
      subst (In raw) (sym (release_all-claimed hub.claimed hub)) (done o1 refl)
  returned-claimed (escape e, hub) o raw done h zero = cc h
  returned-claimed (halt why, hub) o raw done h zero =
      let same : blocked_outcome opts why (tick world opts (text "BLOCKED") hub) ≡ o = cc h in
      let one : pos 1 ≡ o.exit_code = ap (λ (x : HubOutcome). x.exit_code) same in cc (one ∙ zero)

  run_valid-claimed :
      (plans : List StreamPlan) (valid : Result ValueError (Unit {0})) (hub : Hub) (o : HubOutcome)
      (p : StreamPlan)
      → (run_valid world opts plans valid hub).0 ≡ ok o
      → o.exit_code ≡ pos 0
      → In p plans
      → In p.name (run_valid world opts plans valid hub).1.claimed
  unfolding run_valid
  run_valid-claimed plans (err e) hub o p h zero m = cc h
  run_valid-claimed plans (ok u) hub o p h zero m =
      returned-claimed (phases world opts plans hub) o p.name
        (λ o1 e. phases-claimed plans hub o1 p e m) h zero

  -- A run that returns exit code 0 has claimed the name of every plan.
  pub run_parallel-claimed :
      (plans : List StreamPlan) (hub : Hub) (o : HubOutcome) (p : StreamPlan)
      → (run_parallel world opts plans hub).0 ≡ ok o
      → o.exit_code ≡ pos 0
      → In p plans
      → In p.name (run_parallel world opts plans hub).1.claimed
  unfolding run_parallel
  run_parallel-claimed plans hub o p h zero m =
      run_valid-claimed plans (validate_stream_plans plans) (fresh hub) o p h zero m

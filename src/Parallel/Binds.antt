-- ===== src/Parallel/Binds.antt =====
-- memory/supervisor_parallel.py: phases in sequence, and loops over the plans, that go on.
use agentic_loop_template.Base.{List, [], ◌∷◌, ◌≡◌, refl, sym, subst, inl, inr, In}
use agentic_loop_template.Streams.Plans.{StreamPlan}
use agentic_loop_template.Parallel.Hub.{Hub}
use agentic_loop_template.Parallel.Phases.{Phase, go, halt, escape, ◌>>>◌, each}

pub bind-go :
    {A B : Type 0} (x : Phase A × Hub) (next : A → Hub → Phase B × Hub) {b : B}
    → (x >>> next).0 ≡ go b
    → (a : A) × (x.0 ≡ go a) × ((next a x.1).0 ≡ go b) × ((x >>> next).1 ≡ (next a x.1).1)
unfolding ◌>>>◌
bind-go (go a, hub) next e = (a, refl, e, refl)
bind-go (halt why, hub) next e = cc e
bind-go (escape why, hub) next e = cc e

module _ (body : StreamPlan → Hub → Phase (Unit {0}) × Hub) where
  -- A loop that went on has run its body on every plan, and each went on.
  pub each-go :
      (plans : List StreamPlan) (hub : Hub)
      → (each body plans hub).0 ≡ go tt
      → (p : StreamPlan) → In p plans
      → (h : Hub) × ((body p h).0 ≡ go tt)
  unfolding each
  each-go [] hub e p none_left = elim none_left [ ]
  each-go (q ∷ plans) hub e p (inl here) =
      let (u, went_on, rest, after) = bind-go (body q hub) (λ v h. each body plans h) e in
      (hub, subst (λ x. (body x hub).0 ≡ go tt) (sym here) went_on)
  each-go (q ∷ plans) hub e p (inr later) =
      let (u, went_on, rest, after) = bind-go (body q hub) (λ v h. each body plans h) e in
      each-go plans (body q hub).1 rest p later

  pub each-goes :
      (plans : List StreamPlan) (hub : Hub)
      → ((p : StreamPlan) → In p plans → (h : Hub) → (body p h).0 ≡ go tt)
      → (each body plans hub).0 ≡ go tt
  unfolding each ◌>>>◌
  each-goes [] hub all = refl
  each-goes (q ∷ plans) hub all =
      step (body q hub) (all q (inl refl) hub) (λ h. each-goes plans h (λ p m. all p (inr m)))
    where
      step :
          (x : Phase (Unit {0}) × Hub)
          → x.0 ≡ go tt
          → ((h : Hub) → (each body plans h).0 ≡ go tt)
          → (x >>> λ u h. each body plans h).0 ≡ go tt
      step (go u, h) e rest = rest h
      step (halt why, h) e rest = cc e
      step (escape why, h) e rest = cc e

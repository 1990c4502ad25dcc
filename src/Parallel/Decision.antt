-- ===== src/Parallel/Decision.antt =====
-- memory/supervisor_parallel.py: when the work on the streams goes on to the integration.
use agentic_loop_template.Base.{
  Bool, true, false, not, List, [], ◌∷◌, ◌≡◌, refl, sym, ap, ◌∙◌, subst, inl, inr, ◌↔◌, In,
  if◌then◌else◌, arith, and_true,
}
use agentic_loop_template.Base.Text.{Text, text_eq, text_eq_iff, is_empty}
use agentic_loop_template.Streams.Plans.{StreamPlan, contains, all_distinct, plan_names}
use agentic_loop_template.Parallel.Hub.{Hub, HubWorld, Options, StreamReason, streams_blocked}
use agentic_loop_template.Parallel.Stream.{worker}
use agentic_loop_template.Parallel.Phases.{
  Phase, go, halt, escape, ◌>>>◌, each, serial_one, join_future, blocked_reasons, all_joined,
  run_mode, run_streams,
}
use agentic_loop_template.Parallel.Binds.{bind-go, each-go, each-goes}
use agentic_loop_template.Parallel.Joined.{
  Passed, serial-Passed, Unique, no_blocked-find, joined-found, joined-unblocked,
}

-- `as_completed` gives every future, and no other.
abbrev pub IsCompletion : HubWorld → List StreamPlan → Type 0
IsCompletion world plans = (p : StreamPlan) → In p (world.completed plans) ↔ In p plans

name_contained :
    (p : StreamPlan) (n : Text) (ps : List StreamPlan)
    → In p ps
    → text_eq n p.name ≡ true
    → contains n (plan_names ps) ≡ true
unfolding contains plan_names
name_contained p n [] none_left e = elim none_left [ ]
name_contained p n (q ∷ ps) (inl here) e =
    let e' : text_eq n q.name ≡ true = subst (λ (x : StreamPlan). text_eq n x.name ≡ true) here e in
    ground arith
name_contained p n (q ∷ ps) (inr later) e = let rest = name_contained p n ps later e in ground arith

-- Names that are all distinct tell the plans apart.
pub distinct-Unique :
    (p : StreamPlan) (ps : List StreamPlan)
    → all_distinct (plan_names ps) ≡ true
    → In p ps
    → Unique p ps
unfolding all_distinct plan_names
distinct-Unique p [] d none_left q mq e = elim none_left [ ]
distinct-Unique p (x ∷ ps) d m q mq e =
    let (fresh, rest) = and_true (not (contains x.name (plan_names ps))) _ d in
    decide fresh (λ mp mq. distinct-Unique p ps rest mp q mq e) m mq
  where
    decide :
        not (contains x.name (plan_names ps)) ≡ true
        → (In p ps → In q ps → q ≡ p)
        → In p (x ∷ ps)
        → In q (x ∷ ps)
        → q ≡ p
    decide fresh below (inl px) (inl qx) = qx ∙ sym px
    decide fresh below (inr mp) (inr mq) = below mp mq
    decide fresh below (inl px) (inr mq) =
        let e' : text_eq x.name q.name ≡ true =
          (text_eq_iff x.name q.name).1
            (ap (λ (y : StreamPlan). y.name) (sym px) ∙ sym ((text_eq_iff q.name p.name).0 e)) in
        let c = name_contained q x.name ps mq e' in cc (rw c at fresh)
    decide fresh below (inr mp) (inl qx) =
        let e' : text_eq x.name p.name ≡ true =
          subst (λ (y : StreamPlan). text_eq y.name p.name ≡ true) qx e in
        let c = name_contained p x.name ps mp e' in cc (rw c at fresh)

all_joined-go : (hub : Hub) → (all_joined hub).0 ≡ go tt → blocked_reasons hub.results ≡ []
unfolding all_joined
all_joined-go hub e = by_reasons (blocked_reasons hub.results) e
  where
    by_reasons :
        (rs : List StreamReason)
        → (if is_empty rs then go tt else halt (streams_blocked rs)) ≡ go tt
        → rs ≡ []
    by_reasons [] h = refl
    by_reasons (r ∷ rs) h = cc h

module _ (world : HubWorld) (opts : Options) (plans : List StreamPlan) (hub : Hub)
    (complete : IsCompletion world plans) (distinct : all_distinct (plan_names plans) ≡ true) where
  mode-all :
      (mode : Bool)
      → (run_mode mode world opts plans hub).0 ≡ go tt
      → (p : StreamPlan) → In p plans
      → Passed world opts p
  unfolding run_mode
  mode-all false e p m =
      let (h, went_on) = each-go (serial_one world opts) plans hub e p m in
      (serial-Passed world opts p h).0 went_on
  mode-all true e p m =
      let (u, went_on, joined, after) =
        bind-go (each (join_future world opts) (world.completed plans) hub) (λ v h. all_joined h)
          e in
      no_blocked-find p.name (worker world opts p) _ (all_joined-go _ joined) (
        joined-found world opts p (world.completed plans) hub
          (λ q mq. distinct-Unique p plans distinct m q ((complete q).0 mq)) ((complete p).1 m))

  all-mode :
      (mode : Bool)
      → blocked_reasons hub.results ≡ []
      → ((p : StreamPlan) → In p plans → Passed world opts p)
      → (run_mode mode world opts plans hub).0 ≡ go tt
  unfolding run_mode join_future all_joined ◌>>>◌
  all-mode false nb all =
      each-goes (serial_one world opts) plans hub
        (λ p m h. (serial-Passed world opts p h).1 (all p m))
  all-mode true nb all =
      let quiet =
        joined-unblocked world opts (world.completed plans) hub (λ p m. all p ((complete p).0 m))
          nb in
      futures_go (each (join_future world opts) (world.completed plans) hub)
        (each-goes (join_future world opts) (world.completed plans) hub (λ p m h. join-go p h))
        quiet
    where
      join-go : (p : StreamPlan) (h : Hub) → (join_future world opts p h).0 ≡ go tt
      join-go p h = refl

      futures_go :
          (x : Phase (Unit {0}) × Hub)
          → x.0 ≡ go tt
          → blocked_reasons x.1.results ≡ []
          → (x >>> λ u h. all_joined h).0 ≡ go tt
      futures_go (go u, h) e q = rw q refl
      futures_go (halt why, h) e q = cc e
      futures_go (escape why, h) e q = cc e

  -- For plans of distinct names, with results of which none is BLOCKED before and futures that all
  -- complete, the work on the streams goes on to the integration exactly when every stream passes:
  -- serially, and concurrently in any order in which the futures complete.
  pub run_streams-Passed :
      blocked_reasons hub.results ≡ []
      → (run_streams world opts plans hub).0 ≡ go tt
        ↔ ((p : StreamPlan) → In p plans → Passed world opts p)
  unfolding run_streams
  run_streams-Passed nb = (mode-all opts.concurrent, all-mode opts.concurrent nb)

  pub run_streams-all :
      (run_streams world opts plans hub).0 ≡ go tt
      → (p : StreamPlan) → In p plans
      → Passed world opts p
  unfolding run_streams
  run_streams-all = mode-all opts.concurrent

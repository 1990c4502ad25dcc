-- ===== src/Parallel/Joined.antt =====
-- memory/supervisor_parallel.py: the streams' results, serial and concurrent.
use agentic_loop_template.Base.{
  true, false, List, [], ◌∷◌, Option, none, some, Result, ok, err, ◌≡◌, ◌≢◌, refl, sym, ◌∙◌, subst,
  inl, inr, ◌↔◌, In, Bool-cases, if◌then◌else◌,
}
use agentic_loop_template.Base.Text.{Text, text_eq, text_eq_iff, text_eq_refl}
use agentic_loop_template.Streams.Plans.{StreamPlan}
use agentic_loop_template.Parallel.Hub.{
  Hub, HubWorld, Options, StreamResult, StreamError, HubReason, Results, lease_call, renew_all,
  tick, assign, put_result,
}
use agentic_loop_template.Parallel.Stream.{
  run_one_stream, or_blocked, worker, is_blocked, new_result,
}
use agentic_loop_template.Parallel.Phases.{
  Phase, go, halt, ◌>>>◌, each, record_result, join_serial, serial_one, join_future,
  blocked_reasons,
}

-- `stream_results.get(name)`
abbrev pub find_result : Text → Results → Option StreamResult
find_result name [] = none
find_result name ((n, r) ∷ rs) = if text_eq n name then some r else find_result name rs

find-assign :
    (name : Text) (r : StreamResult) (rs : Results) → find_result name (assign name r rs) ≡ some r
unfolding assign
find-assign name r [] = rw (text_eq_refl name) refl
find-assign name r ((n, x) ∷ rs) = elim (Bool-cases (text_eq n name)) [
  | inl e ↦ rw (e, e) refl
  | inr e ↦ rw (e, e) (find-assign name r rs)
]

find-assign_ne :
    (name other : Text) (r : StreamResult) (rs : Results)
    → text_eq other name ≡ false
    → find_result name (assign other r rs) ≡ find_result name rs
unfolding assign
find-assign_ne name other r [] ne = rw ne refl
find-assign_ne name other r ((n, x) ∷ rs) ne = elim (Bool-cases (text_eq n other)) [
  | inl e ↦
      let same = (text_eq_iff n other).0 e in
      let e' : text_eq n name ≡ false = rw same ne in rw (e, e') refl
  | inr e ↦ elim (Bool-cases (text_eq n name)) [
    | inl e2 ↦ rw (e, e2) refl
    | inr e2 ↦ rw (e, e2) (find-assign_ne name other r rs ne)
  ]
]

pub no_blocked-find :
    (name : Text) (r : StreamResult) (rs : Results)
    → blocked_reasons rs ≡ []
    → find_result name rs ≡ some r
    → is_blocked r.status ≡ false
unfolding blocked_reasons
no_blocked-find name r [] nb f = cc f
no_blocked-find name r ((n, x) ∷ rs) nb f = elim (Bool-cases (is_blocked x.status)) [
  | inl b ↦ cc (rw b at nb)
  | inr b ↦ elim (Bool-cases (text_eq n name)) [
    | inl e ↦ let same : x ≡ r = cc (rw e at f) in subst (λ y. is_blocked y.status ≡ false) same b
    | inr e ↦ no_blocked-find name r rs (rw b at nb) (rw e at f)
  ]
]

no_blocked-assign :
    (name : Text) (r : StreamResult) (rs : Results)
    → is_blocked r.status ≡ false
    → blocked_reasons rs ≡ []
    → blocked_reasons (assign name r rs) ≡ []
unfolding blocked_reasons assign
no_blocked-assign name r [] ok_r nb = rw ok_r refl
no_blocked-assign name r ((n, x) ∷ rs) ok_r nb = elim (Bool-cases (is_blocked x.status)) [
  | inl b ↦ cc (rw b at nb)
  | inr b ↦ elim (Bool-cases (text_eq n name)) [
    | inl e ↦ rw (e, ok_r) (rw b at nb)
    | inr e ↦ rw (e, b) (no_blocked-assign name r rs ok_r (rw b at nb))
  ]
]

-- A tick leaves the results.
renew_all-results :
    (world : HubWorld) (opts : Options) (names : List Text) (hub : Hub)
    → (renew_all world opts names hub).results ≡ hub.results
unfolding renew_all lease_call
renew_all-results world opts [] hub = refl
renew_all-results world opts (n ∷ names) hub = renew_all-results world opts names _

record_result-results :
    (world : HubWorld) (opts : Options) (name : Text) (r : StreamResult) (hub : Hub)
    → (record_result world opts name r hub).results ≡ assign name r hub.results
unfolding record_result tick put_result
record_result-results world opts name r hub = renew_all-results world opts hub.claimed _

-- A stream that passed: its record is not BLOCKED.
abbrev pub Passed : HubWorld → Options → StreamPlan → Type 0
Passed world opts p = is_blocked (worker world opts p).status ≡ false

halt_no_go : {A : Type 0} (why : HubReason) (a : A) → ◌≢◌ {A = Phase A} (halt why) (go a)
halt_no_go why a e = cc e

pub serial-Passed :
    (world : HubWorld) (opts : Options) (p : StreamPlan) (hub : Hub)
    → (serial_one world opts p hub).0 ≡ go tt ↔ Passed world opts p
unfolding serial_one worker join_serial or_blocked new_result is_blocked
serial-Passed world opts p hub = by_result (run_one_stream world opts p)
  where
    by_result :
        (r : Result StreamError StreamResult)
        → ((join_serial world opts p r hub).0 ≡ go tt)
          ↔ (is_blocked (or_blocked p r).status ≡ false)
    by_result (err e) = (λ h. cc h, λ h. cc h)
    by_result (ok r) = elim (Bool-cases (is_blocked r.status)) [
      | inl b ↦ rw b (λ h. absurd (halt_no_go _ tt h), λ h. cc h)
      | inr b ↦ rw b (λ h. refl, λ h. refl)
    ]

-- Plans of the same name are the same plan.
abbrev pub Unique : StreamPlan → List StreamPlan → Type 0
Unique p ps = (q : StreamPlan) → In q ps → text_eq q.name p.name ≡ true → q ≡ p

module _ (world : HubWorld) (opts : Options) where
  joined-kept :
      (p : StreamPlan) (ps : List StreamPlan) (hub : Hub)
      → Unique p ps
      → find_result p.name hub.results ≡ some (worker world opts p)
      → find_result p.name (each (join_future world opts) ps hub).1.results
        ≡ some (worker world opts p)
  unfolding each ◌>>>◌ join_future
  joined-kept p [] hub u f = f
  joined-kept p (q ∷ ps) hub u f =
      joined-kept p ps (join_future world opts q hub).1 (λ r m. u r (inr m))
        (subst (λ rs. find_result p.name rs ≡ some (worker world opts p))
          (sym (record_result-results world opts q.name (worker world opts q) hub))
          (elim (Bool-cases (text_eq q.name p.name)) [
            | inl e ↦
                let same = u q (inl refl) e in
                subst
                  (λ x.
                    find_result p.name (assign x.name (worker world opts x) hub.results)
                    ≡ some (worker world opts p))
                  (sym same) (find-assign p.name (worker world opts p) hub.results)
            | inr e ↦ find-assign_ne p.name q.name (worker world opts q) hub.results e ∙ f
          ]))

  pub joined-found :
      (p : StreamPlan) (ps : List StreamPlan) (hub : Hub)
      → Unique p ps
      → In p ps
      → find_result p.name (each (join_future world opts) ps hub).1.results
        ≡ some (worker world opts p)
  unfolding each ◌>>>◌ join_future
  joined-found p [] hub u none_left = elim none_left [ ]
  joined-found p (q ∷ ps) hub u (inr later) =
      joined-found p ps (join_future world opts q hub).1 (λ r m. u r (inr m)) later
  joined-found p (q ∷ ps) hub u (inl here) =
      joined-kept p ps (join_future world opts q hub).1 (λ r m. u r (inr m))
        (subst (λ rs. find_result p.name rs ≡ some (worker world opts p))
          (sym (record_result-results world opts q.name (worker world opts q) hub))
          (subst
            (λ x.
              find_result p.name (assign x.name (worker world opts x) hub.results)
              ≡ some (worker world opts p))
            here (find-assign p.name (worker world opts p) hub.results)))

  pub joined-unblocked :
      (ps : List StreamPlan) (hub : Hub)
      → ((p : StreamPlan) → In p ps → Passed world opts p)
      → blocked_reasons hub.results ≡ []
      → blocked_reasons (each (join_future world opts) ps hub).1.results ≡ []
  unfolding each ◌>>>◌ join_future
  joined-unblocked [] hub all nb = nb
  joined-unblocked (q ∷ ps) hub all nb =
      joined-unblocked ps (join_future world opts q hub).1 (λ p m. all p (inr m))
        (subst (λ rs. blocked_reasons rs ≡ [])
          (sym (record_result-results world opts q.name (worker world opts q) hub))
          (no_blocked-assign q.name (worker world opts q) hub.results (all q (inl refl)) nb))

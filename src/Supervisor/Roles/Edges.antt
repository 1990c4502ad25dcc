-- ===== src/Supervisor/Roles/Edges.antt =====
-- memory/supervisor.py: the answers that `next_role` can give.
use agentic_loop_template.Base.{
  ◌≡◌, ◌≢◌, refl, ap, ◌∙◌, subst, ◌↔◌, true, inl, inr, ◌⊎◌, if◌then◌else◌, Option, arith,
  Bool-cases, ok, >>=-eq-ok, ok-eq-ok,
}
use agentic_loop_template.Base.Int.{ℤ}
use agentic_loop_template.Base.Text.{Text, text, text_eq, text_eq_iff}
use agentic_loop_template.Json.{Json, Fields, get, upper_of, contains}
use agentic_loop_template.Supervisor.Roles.{
  Terminal, pr_ready, blocked, Next, role, terminal, tester, debugger, reviewer, allowed_handoff,
  follow, after_tester, next_role,
}
use agentic_loop_template.Supervisor.Roles.Targets.{
  NoneFailed, follow-allowed, follow-blocked, tester_next, tester_answers-role,
}

-- Which of its four cases `next_role` is in.
data Case (parse : Text → Option ℤ) (r : Text) (fs : Fields) : Next → Type 0 where
  is_blocked : Case parse r fs (terminal blocked)
  is_done :
      upper_of (get (text "status") fs) ≡ ok (text "DONE")
      → Case parse r fs (terminal (if text_eq r reviewer then pr_ready else blocked))
  at_tester : {next : Next} → r ≡ tester → after_tester parse fs ≡ ok next → Case parse r fs next
  elsewhere :
      {next : Next}
      → follow r (get (text "handoff_to") fs) ≡ ok next
      → r ≢ tester
      → Case parse r fs next

next_role-Case :
    (parse : Text → Option ℤ) (r : Text) (fs : Fields) (next : Next)
    → next_role parse r fs ≡ ok next
    → Case parse r fs next
unfolding next_role
next_role-Case parse r fs next h =
    let (status, e, h1) = >>=-eq-ok (upper_of (get (text "status") fs)) _ h in
    elim (Bool-cases (text_eq status (text "BLOCKED"))) [
      | inl bad ↦ subst (Case parse r fs) (ok-eq-ok (rw bad at h1)) is_blocked
      | inr not_blocked ↦ elim (Bool-cases (text_eq status (text "DONE"))) [
        | inl done ↦
            subst (Case parse r fs) (ok-eq-ok (rw (not_blocked, done) at h1))
              (is_done (e ∙ ap ok ((text_eq_iff status (text "DONE")).0 done)))
        | inr not_done ↦ elim (Bool-cases (text_eq r tester)) [
          | inl here ↦
              at_tester ((text_eq_iff r tester).0 here) (rw (not_blocked, not_done, here) at h1)
          | inr other ↦
              elsewhere (rw (not_blocked, not_done, other) at h1)
                λ same. cc (other, (text_eq_iff r tester).1 same)
        ]
      ]
    ]

tester_allowed :
    {P : Type 0} (n : Text)
    → (n ≡ debugger) ⊎ ((n ≡ reviewer) × P)
    → contains n (allowed_handoff tester) ≡ true
unfolding contains allowed_handoff text_eq
tester_allowed n (inl is_debugger) = rw is_debugger refl
tester_allowed n (inr (is_reviewer, passed)) = rw is_reviewer refl

-- The role that `next_role` names is one that the current role may hand over to.
pub next_role-allowed :
    (parse : Text → Option ℤ) (r : Text) (fs : Fields) (n : Text)
    → next_role parse r fs ≡ ok (role n)
    → contains n (allowed_handoff r) ≡ true
next_role-allowed parse r fs n h = go (role n) n (next_role-Case parse r fs (role n) h) refl
  where
    go :
        (next : Next) (n : Text)
        → Case parse r fs next
        → next ≡ role n
        → contains n (allowed_handoff r) ≡ true
    go next n is_blocked e = cc e
    go next n (is_done done) e = cc e
    go next n (at_tester here answer) e =
        rw here (tester_allowed n (tester_next parse fs n (answer ∙ ap ok e)))
    go next n (elsewhere answer other) e =
        follow-allowed r n (get (text "handoff_to") fs) (answer ∙ ap ok e)

-- The only terminals that `next_role` answers are PR_READY and BLOCKED.
pub next_role-terminal :
    (parse : Text → Option ℤ) (r : Text) (fs : Fields) (t : Terminal)
    → next_role parse r fs ≡ ok (terminal t)
    → (t ≡ pr_ready) ⊎ (t ≡ blocked)
next_role-terminal parse r fs t h = go (terminal t) (next_role-Case parse r fs (terminal t) h) refl
  where
    go : (next : Next) → Case parse r fs next → next ≡ terminal t → (t ≡ pr_ready) ⊎ (t ≡ blocked)
    go next is_blocked e = inr (cc e)
    go next (is_done done) e = elim (Bool-cases (text_eq r reviewer)) [
      | inl here ↦ inl (cc (rw here at e))
      | inr other ↦ inr (cc (rw other at e))
    ]
    go next (at_tester here answer) e = absurd (tester_answers-role parse fs t (answer ∙ ap ok e))
    go next (elsewhere answer other) e =
        inr (follow-blocked r (get (text "handoff_to") fs) t (answer ∙ ap ok e))

reviewer_done :
    (parse : Text → Option ℤ) (r : Text) (fs : Fields)
    → (r ≡ reviewer) × (upper_of (get (text "status") fs) ≡ ok (text "DONE"))
    → next_role parse r fs ≡ ok (terminal pr_ready)
unfolding next_role text_eq
reviewer_done parse r fs (here, done) = rw (here, done) refl

-- `next_role` answers PR_READY exactly for a Reviewer whose handoff has the status DONE, in any case of letters.
pub next_role-pr_ready :
    (parse : Text → Option ℤ) (r : Text) (fs : Fields)
    → (next_role parse r fs ≡ ok (terminal pr_ready))
      ↔ ((r ≡ reviewer) × (upper_of (get (text "status") fs) ≡ ok (text "DONE")))
next_role-pr_ready parse r fs = (
  λ h. go (terminal pr_ready) (next_role-Case parse r fs (terminal pr_ready) h) refl,
  reviewer_done parse r fs,
)
  where
    go :
        (next : Next)
        → Case parse r fs next
        → next ≡ terminal pr_ready
        → (r ≡ reviewer) × (upper_of (get (text "status") fs) ≡ ok (text "DONE"))
    go next is_blocked e = cc e
    go next (is_done done) e = elim (Bool-cases (text_eq r reviewer)) [
      | inl here ↦ ((text_eq_iff r reviewer).0 here, done)
      | inr other ↦ cc (rw other at e)
    ]
    go next (at_tester here answer) e =
        absurd (tester_answers-role parse fs pr_ready (answer ∙ ap ok e))
    go next (elsewhere answer other) e =
        cc (follow-blocked r (get (text "handoff_to") fs) pr_ready (answer ∙ ap ok e))

follow-reviewer : (r : Text) (to : Json) → follow r to ≡ ok (role reviewer) → r ≢ tester → ⊥
unfolding allowed_handoff contains text_eq
follow-reviewer r to h other =
    let found : contains reviewer (allowed_handoff r) ≡ true = follow-allowed r reviewer to h in
    elim (Bool-cases (text_eq r tester)) [
      | inl here ↦ other ((text_eq_iff r tester).0 here)
      | inr elsewhere_r ↦ ground arith
    ]

reviewer_not_debugger : reviewer ≢ debugger
unfolding text_eq
reviewer_not_debugger e =
    let same : text_eq reviewer debugger ≡ true = (text_eq_iff reviewer debugger).1 e in cc same

pub next_role-reviewer :
    (parse : Text → Option ℤ) (r : Text) (fs : Fields)
    → next_role parse r fs ≡ ok (role reviewer)
    → (r ≡ tester) × NoneFailed parse fs
next_role-reviewer parse r fs h =
    go (role reviewer) (next_role-Case parse r fs (role reviewer) h) refl
  where
    passed :
        (reviewer ≡ debugger) ⊎ ((reviewer ≡ reviewer) × NoneFailed parse fs) → NoneFailed parse fs
    passed (inl impossible) = absurd (reviewer_not_debugger impossible)
    passed (inr (_, none_failed)) = none_failed

    go :
        (next : Next)
        → Case parse r fs next
        → next ≡ role reviewer
        → (r ≡ tester) × NoneFailed parse fs
    go next is_blocked e = cc e
    go next (is_done done) e = cc e
    go next (at_tester here answer) e =
        (here, passed (tester_next parse fs reviewer (answer ∙ ap ok e)))
    go next (elsewhere answer other) e =
        absurd (follow-reviewer r (get (text "handoff_to") fs) (answer ∙ ap ok e) other)

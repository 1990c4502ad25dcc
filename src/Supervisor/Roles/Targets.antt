-- ===== src/Supervisor/Roles/Targets.antt =====
-- memory/supervisor.py: the targets that a handoff may name, role by role.
use agentic_loop_template.Base.{
  ◌≡◌, refl, Bool, true, false, ◌||◌, inl, inr, ◌⊎◌, List, [], ◌∷◌, if◌then◌else◌, Option, arith,
  Bool-cases, Option-cases, some, none, ok, >>=-eq-ok, ok-eq-ok,
}
use agentic_loop_template.Base.Int.{ℤ, pos, is_positive}
use agentic_loop_template.Base.Text.{Text, text, text_eq, text_eq_iff}
use agentic_loop_template.Json.{
  Json, null, boolean, integer, float, string, array, object, Fields, get, equals_text, contains,
  in_set, Items, is_dict, finite, infinite, not_a_number,
}
use agentic_loop_template.Supervisor.Roles.{
  Terminal, blocked, Next, role, terminal, orchestrator, coder, tester, debugger, reviewer,
  allowed_handoff, default_chain, int_or_zero, tests_failed, follow, after_tester,
}

-- A conditional role, and the targets that are allowed in the same case.
case_allowed :
    (c : Bool) (a n : Text) (x : Next) (ts : List Text)
    → (if c then role a else x) ≡ role n
    → (c ≡ false → x ≡ role n → contains n ts ≡ true)
    → contains n (if c then a ∷ [] else ts) ≡ true
unfolding contains
case_allowed true a n x ts h later = let same : a ≡ n = cc h in ground (arith, text_eq_iff a n)
case_allowed false a n x ts h later = later refl h

default_chain-allowed :
    (r n : Text) → default_chain r ≡ role n → contains n (allowed_handoff r) ≡ true
unfolding default_chain allowed_handoff text_eq
default_chain-allowed r n h = case_allowed (text_eq r orchestrator) coder n _ _ h λ _ h1.
    case_allowed (text_eq r coder) tester n _ _ h1 λ _ h2. elim (Bool-cases (text_eq r tester)) [
      | inl at_tester ↦ cc (rw ((text_eq_iff r tester).0 at_tester) at h)
      | inr elsewhere ↦ rw elsewhere (
          case_allowed (text_eq r debugger) tester n _ _ h2
            λ _ h3. case_allowed (text_eq r reviewer) orchestrator n _ _ h3 λ _ h4. cc h4)
    ]

text_target :
    (r n s : Text) (is_allowed unnamed : Bool)
    → contains s (allowed_handoff r) ≡ is_allowed
    → (if is_allowed then role s else if unnamed then default_chain r else terminal blocked)
      ≡ role n
    → contains n (allowed_handoff r) ≡ true
text_target r n s true unnamed e h = let same : s ≡ n = cc h in rw (← same) e
text_target r n s false true e h = default_chain-allowed r n h
text_target r n s false false e h = cc h

pub follow-allowed :
    (r n : Text) (to : Json) → follow r to ≡ ok (role n) → contains n (allowed_handoff r) ≡ true
unfolding follow in_set
follow-allowed r n (string s) h =
    text_target r n s (contains s (allowed_handoff r)) _ refl (ok-eq-ok h)
follow-allowed r n null h = default_chain-allowed r n (ok-eq-ok h)
follow-allowed r n (boolean b) h = cc h
follow-allowed r n (integer i) h = cc h
follow-allowed r n (float x) h = cc h
follow-allowed r n (array vs) h = cc h
follow-allowed r n (object fs) h = cc h

-- A value that counts no failed test: a number that is not positive, as it is or in a text, or nothing that reads as a number.
pub data CountsNone (parse : Text → Option ℤ) : Json → Type 0 where
  whole_number : {n : ℤ} → is_positive n ≡ false → CountsNone parse (integer n)
  false_value : CountsNone parse (boolean false)
  cut_off :
      {n : ℤ} {whole : Bool} → is_positive n ≡ false → CountsNone parse (float (finite n whole))
  undefined : CountsNone parse (float not_a_number)
  in_text :
      {s : Text} {n : ℤ} → parse s ≡ some n → is_positive n ≡ false → CountsNone parse (string s)
  unreadable_text : {s : Text} → parse s ≡ none → CountsNone parse (string s)
  missing : CountsNone parse null
  in_array : {vs : Items} → CountsNone parse (array vs)
  in_object : {fs : Fields} → CountsNone parse (object fs)

-- Metrics that name no failed test: no object, or one whose "tests_failed" counts none.
pub data NoneFailedIn (parse : Text → Option ℤ) (v : Json) : Type 0 where
  no_metrics : is_dict v ≡ false → NoneFailedIn parse v
  counted :
      (metrics : Fields)
      → v ≡ object metrics
      → CountsNone parse (get (text "tests_failed") metrics)
      → NoneFailedIn parse v

-- The metrics of the handoff name no failed test.
abbrev pub NoneFailed : (Text → Option ℤ) → Fields → Type 0
NoneFailed parse fs = NoneFailedIn parse (get (text "metrics") fs)

int_or_zero-CountsNone :
    (parse : Text → Option ℤ) (v : Json) (n : ℤ)
    → int_or_zero parse v ≡ ok n
    → is_positive n ≡ false
    → CountsNone parse v
unfolding int_or_zero
int_or_zero-CountsNone parse (integer m) n e h = whole_number (let same : m ≡ n = cc e in rw same h)
int_or_zero-CountsNone parse (boolean true) n e h =
    let one : pos 1 ≡ n = cc e in absurd (cc (rw (← one) at h))
int_or_zero-CountsNone parse (boolean false) n e h = false_value
int_or_zero-CountsNone parse (float (finite m whole)) n e h =
    cut_off (let same : m ≡ n = cc e in rw same h)
int_or_zero-CountsNone parse (float infinite) n e h = cc e
int_or_zero-CountsNone parse (float not_a_number) n e h = undefined
int_or_zero-CountsNone parse (string s) n e h = elim (Option-cases (parse s)) [
  | inl unread ↦ unreadable_text unread
  | inr (m, read) ↦ in_text read (let same : m ≡ n = cc (rw (read, int_or_zero) at e) in rw same h)
]
int_or_zero-CountsNone parse null n e h = missing
int_or_zero-CountsNone parse (array vs) n e h = in_array
int_or_zero-CountsNone parse (object fs) n e h = in_object

tests_failed-NoneFailed :
    (parse : Text → Option ℤ) (v : Json) (n : ℤ)
    → tests_failed parse v ≡ ok n
    → is_positive n ≡ false
    → NoneFailedIn parse v
unfolding tests_failed is_dict
tests_failed-NoneFailed parse (object metrics) n e h =
    counted metrics refl (int_or_zero-CountsNone parse _ n e h)
tests_failed-NoneFailed parse null n e h = no_metrics refl
tests_failed-NoneFailed parse (boolean b) n e h = no_metrics refl
tests_failed-NoneFailed parse (integer i) n e h = no_metrics refl
tests_failed-NoneFailed parse (float x) n e h = no_metrics refl
tests_failed-NoneFailed parse (string s) n e h = no_metrics refl
tests_failed-NoneFailed parse (array vs) n e h = no_metrics refl

-- After the Tester the next role is the Debugger, or the Reviewer if no test failed and the handoff does not
-- name the Debugger.
pub tester_next :
    (parse : Text → Option ℤ) (fs : Fields) (n : Text)
    → after_tester parse fs ≡ ok (role n)
    → (n ≡ debugger) ⊎ ((n ≡ reviewer) × NoneFailed parse fs)
unfolding after_tester
tester_next parse fs n h =
    let (failed, e, h1) = >>=-eq-ok (tests_failed parse (get (text "metrics") fs)) _ h in
    elim (Bool-cases (is_positive failed || equals_text debugger (get (text "handoff_to") fs))) [
      | inl bad ↦ inl (cc (rw bad at h1))
      | inr good ↦
          let not_positive : is_positive failed ≡ false = ground arith in
          inr (cc (rw good at h1), tests_failed-NoneFailed parse _ failed e not_positive)
    ]

pub tester_answers-role :
    (parse : Text → Option ℤ) (fs : Fields) (t : Terminal)
    → after_tester parse fs ≡ ok (terminal t)
    → ⊥
unfolding after_tester
tester_answers-role parse fs t h =
    let (failed, e, h1) = >>=-eq-ok (tests_failed parse (get (text "metrics") fs)) _ h in cc h1

default_chain-blocked : (r : Text) (t : Terminal) → default_chain r ≡ terminal t → t ≡ blocked
unfolding default_chain
default_chain-blocked r t h = ground arith

pub follow-blocked :
    (r : Text) (to : Json) (t : Terminal) → follow r to ≡ ok (terminal t) → t ≡ blocked
unfolding follow in_set
follow-blocked r (string s) t h = text_blocked (contains s (allowed_handoff r)) _ (ok-eq-ok h)
  where
    text_blocked :
        (is_allowed unnamed : Bool)
        → (if is_allowed then role s else if unnamed then default_chain r else terminal blocked)
          ≡ terminal t
        → t ≡ blocked
    text_blocked true unnamed e = cc e
    text_blocked false true e = default_chain-blocked r t e
    text_blocked false false e = cc e
follow-blocked r null t h = default_chain-blocked r t (ok-eq-ok h)
follow-blocked r (boolean b) t h = cc h
follow-blocked r (integer i) t h = cc h
follow-blocked r (float x) t h = cc h
follow-blocked r (array vs) t h = cc h
follow-blocked r (object fs) t h = cc h

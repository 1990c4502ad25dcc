-- ===== src/Handoff/Fallback/Structured.antt =====
-- memory/validate_handoff.py: what a handoff has that passes the checks without the jsonschema package.
use agentic_loop_template.Base.{
  ◌≡◌, refl, sym, ap, ◌∙◌, subst, inl, inr, Bool, true, false, not, List, [], ◌∷◌, In, ok,
  >>=-eq-ok, ok-eq-ok,
}
use agentic_loop_template.Base.Text.{Text, text}
use agentic_loop_template.Json.{
  Json, null, boolean, integer, float, string, array, object, Fields, get, has_key, contains,
  in_set,
}
use agentic_loop_template.Handoff.{Problem, missing_field, invalid_field, when, done_extras}
use agentic_loop_template.Handoff.Done.{append_empty}
use agentic_loop_template.Handoff.Fallback.{
  Limits, missing_fields, enum_problem, python_structural, validate_without_schema,
}

when-none : (c : Bool) (p : Problem) → when (not c) p ≡ [] → c ≡ true
unfolding when
when-none true p h = refl
when-none false p h = cc h

missing_fields-none :
    (ks : List Text) (fs : Fields)
    → missing_fields ks fs ≡ []
    → (k : Text) → In k ks
    → has_key k fs ≡ true
unfolding missing_fields
missing_fields-none [] fs h k m = elim m [ ]
missing_fields-none (k' ∷ ks) fs h k m =
    let (here_none, later_none) = append_empty _ _ h in
    elim m [
      | inl here ↦
          subst (λ x. has_key x fs ≡ true) (sym here)
            (when-none (has_key k' fs) (missing_field k') here_none)
      | inr there ↦ missing_fields-none ks fs later_none k there
    ]

-- A value found in a set of strings is one of them.
in_set-string :
    (v : Json) (ts : List Text)
    → in_set v ts ≡ ok true
    → (s : Text) × (v ≡ string s) × (contains s ts ≡ true)
unfolding in_set
in_set-string (string s) ts h = (s, refl, ok-eq-ok h)
in_set-string null ts h = cc h
in_set-string (boolean b) ts h = cc h
in_set-string (integer n) ts h = cc h
in_set-string (float x) ts h = cc h
in_set-string (array vs) ts h = cc h
in_set-string (object fs) ts h = cc h

enum_problem-none :
    (key : Text) (allowed : List Text) (fs : Fields)
    → enum_problem key allowed fs ≡ ok []
    → has_key key fs ≡ true
    → (s : Text) × (get key fs ≡ string s) × (contains s allowed ≡ true)
unfolding enum_problem
enum_problem-none key allowed fs h there =
    let (found, e, h') =
      >>=-eq-ok (in_set (get key fs) allowed) _ (rw (there, enum_problem) at h) in
    let is_found : found ≡ true = when-none found (invalid_field key) (ok-eq-ok h') in
    in_set-string (get key fs) allowed (e ∙ ap ok is_found)

-- A string of the set under each key that the checks compare with one.
pub record InEnum (key : Text) (allowed : List Text) (fs : Fields) : Type 0 where
  pub word : Text
  pub is_word : get key fs ≡ string word
  pub is_allowed : contains word allowed ≡ true

-- What an accepted handoff has.
pub record IsStructured (limits : Limits) (fs : Fields) : Type 0 where
  pub complete : (k : Text) → In k limits.required → has_key k fs ≡ true
  pub role : has_key (text "role") fs ≡ true → InEnum (text "role") limits.roles_sender fs
  pub target : has_key (text "handoff_to") fs ≡ true → InEnum (text "handoff_to") limits.roles_to fs
  pub status : has_key (text "status") fs ≡ true → InEnum (text "status") limits.statuses fs
  pub phase :
      has_key (text "current_phase") fs ≡ true → InEnum (text "current_phase") limits.phases fs

enum_problem-InEnum :
    (key : Text) (allowed : List Text) (fs : Fields)
    → enum_problem key allowed fs ≡ ok []
    → has_key key fs ≡ true
    → InEnum key allowed fs
enum_problem-InEnum key allowed fs h there =
    let (s, e, found) = enum_problem-none key allowed fs h there in
    record { word = s; is_word = e; is_allowed = found }

-- Without jsonschema too, a handoff without a problem has every required key, and a string of the enum under each of the
-- four keys that have one.
pub validate_without_schema-IsStructured :
    (limits : Limits) (fs : Fields) (strict_done : Bool)
    → validate_without_schema limits (object fs) strict_done ≡ ok []
    → IsStructured limits fs × (done_extras fs strict_done ≡ [])
unfolding validate_without_schema python_structural
validate_without_schema-IsStructured limits fs strict_done h =
    let (problems, structural, h1) = >>=-eq-ok (python_structural limits fs) _ h in
    let (no_structural, no_extras) = append_empty problems _ (ok-eq-ok h1) in
    let (roles, er, h2) =
      >>=-eq-ok (enum_problem (text "role") limits.roles_sender fs) _ structural in
    let (targets, et, h3) = >>=-eq-ok (enum_problem (text "handoff_to") limits.roles_to fs) _ h2 in
    let (statuses, es, h4) = >>=-eq-ok (enum_problem (text "status") limits.statuses fs) _ h3 in
    let (phases, ep, h5) = >>=-eq-ok (enum_problem (text "current_phase") limits.phases fs) _ h4 in
    let (none_missing, n1) =
      append_empty (missing_fields limits.required fs) _ (ok-eq-ok h5 ∙ no_structural) in
    let (no_role, n2) = append_empty roles _ n1 in
    let (no_target, n3) = append_empty targets _ n2 in
    let (no_status, n4) = append_empty statuses _ n3 in
    let (no_phase, n5) = append_empty phases _ n4 in
    (
      record {
        complete = missing_fields-none limits.required fs none_missing;
        role = enum_problem-InEnum (text "role") limits.roles_sender fs (er ∙ ap ok no_role);
        target = enum_problem-InEnum (text "handoff_to") limits.roles_to fs (et ∙ ap ok no_target);
        status = enum_problem-InEnum (text "status") limits.statuses fs (es ∙ ap ok no_status);
        phase = enum_problem-InEnum (text "current_phase") limits.phases fs (ep ∙ ap ok no_phase);
      },
      no_extras,
    )

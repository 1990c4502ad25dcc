-- ===== src/Handoff/Fallback.antt =====
-- memory/validate_handoff.py: the structural checks that run without the jsonschema package.
pub mod Structured
use agentic_loop_template.Base.{
  ℕ, ◌≡◌, ◌≢◌, refl, sym, ap, ◌∙◌, subst, ◌⊎◌, inl, inr, Bool, true, false, not, ◌&&◌, List, [],
  ◌∷◌, ◌++◌, Option, none, some, length, In, ltb, if◌then◌else◌, Bool-cases, Result, ok, err, ◌>>=◌,
  >>=-eq-ok, ok-eq-ok, arith,
}
use agentic_loop_template.Base.Text.{Text, text}
use agentic_loop_template.Json.{
  Json, null, boolean, integer, float, string, array, object, Fields, Crash, get, has_key, contains,
  in_set, is_null,
}
use agentic_loop_template.Handoff.{
  Problem, missing_field, invalid_field, confidence_out_of_range, confidence_not_a_number,
  summary_too_long, not_an_object, when, done_extras,
}
use agentic_loop_template.Handoff.Done.{append_empty}

-- What the checks take from the schema, or from their own lists where it has none. `out_of_bounds` is none where
-- `float(conf)` raises, and otherwise whether the number is below the minimum or above the maximum.
pub record Limits : Type 0 where
  pub required : List Text
  pub roles_sender : List Text
  pub roles_to : List Text
  pub statuses : List Text
  pub phases : List Text
  pub out_of_bounds : Json → Option Bool
  pub max_summary : ℕ

unfoldable pub missing_fields : List Text → Fields → List Problem
missing_fields [] fs = []
missing_fields (k ∷ ks) fs = when (not (has_key k fs)) (missing_field k) ++ missing_fields ks fs

-- `if key in data and data[key] not in allowed`
unfoldable pub enum_problem : Text → List Text → Fields → Result Crash (List Problem)
enum_problem key allowed fs =
    if has_key key fs
    then (in_set (get key fs) allowed >>= λ found. ok (when (not found) (invalid_field key)))
    else ok []

unfoldable pub confidence_problem : Limits → Fields → List Problem
confidence_problem limits fs =
    if is_null (get (text "confidence") fs)
    then []
    else elim (limits.out_of_bounds (get (text "confidence") fs)) [
      | none ↦ confidence_not_a_number ∷ []
      | some outside ↦ when outside confidence_out_of_range
    ]

unfoldable pub summary_problem : Limits → Fields → List Problem
summary_problem limits fs = elim (get (text "summary") fs) [
  | string s ↦ when (ltb limits.max_summary (length s)) summary_too_long
  | _ ↦ []
]

-- `_python_structural`
unfoldable pub python_structural : Limits → Fields → Result Crash (List Problem)
python_structural limits fs = do
  roles ← enum_problem (text "role") limits.roles_sender fs
  targets ← enum_problem (text "handoff_to") limits.roles_to fs
  statuses ← enum_problem (text "status") limits.statuses fs
  phases ← enum_problem (text "current_phase") limits.phases fs
  ok (
      missing_fields limits.required fs
      ++ (roles
          ++ (targets
              ++ (statuses
                  ++ (phases ++ (confidence_problem limits fs ++ summary_problem limits fs))))))

-- `validate_handoff` without the jsonschema package
unfoldable pub validate_without_schema : Limits → Json → Bool → Result Crash (List Problem)
validate_without_schema limits (object fs) strict_done =
    python_structural limits fs >>= λ problems. ok (problems ++ done_extras fs strict_done)
validate_without_schema limits v strict_done = ok (not_an_object ∷ [])

-- ===== src/Handoff/Tests.antt =====
-- Checks of concrete handoffs.
use agentic_loop_template.Base.{◌≡◌, ◌≢◌, ◌⊎◌, ◌↔◌, refl, true, false, ◌∷◌, some, ok, []}
use agentic_loop_template.Base.Text.{text, text_eq, is_empty}
use agentic_loop_template.Json.{
  boolean, string, object, Fields, end, field, get, get_or, has_key, in_set, contains, is_null,
  equals_text, truthy, is_dict,
}
use agentic_loop_template.Handoff.{
  when, strict_extras, is_verified, done_needs_git_sync, done_extras,
}
use agentic_loop_template.Handoff.Fallback.{
  Limits, missing_fields, enum_problem, confidence_problem, summary_problem, python_structural,
  validate_without_schema,
}
use agentic_loop_template.Handoff.Fallback.Structured.{
  IsStructured, validate_without_schema-IsStructured,
}
use agentic_loop_template.Handoff.Done.{NoTarget, StrictEvidence, done_extras_iff}

abbrev finished : Fields
finished = field (text "status") (string (text "DONE")) (
    field (text "sync_waived") (string (text "offline")) (
      field (text "distillation_performed") (boolean true)
        (field (text "metrics") (object end) end)))

done_extras_iff_example : (done_extras finished true ≡ []) ↔ (
    (get (text "status") finished ≢ string (text "DONE"))
    ⊎ (NoTarget finished × ((true ≡ false) ⊎ StrictEvidence finished)))
done_extras_iff_example = done_extras_iff finished true

finished_passes : done_extras finished true ≡ []
unfolding done_extras strict_extras is_null equals_text get get_or text_eq truthy is_verified
    is_dict when is_empty
finished_passes = refl

-- A git status that does not say that it is verified, and no waiver.
abbrev unverified : Fields
unverified = field (text "status") (string (text "DONE")) (
    field (text "git_sync_status") (object end) (
      field (text "distillation_performed") (boolean true)
        (field (text "metrics") (object end) end)))

unverified_noted : done_extras unverified true ≡ done_needs_git_sync ∷ []
unfolding done_extras strict_extras is_null equals_text get get_or text_eq truthy is_verified
    is_dict when is_empty
unverified_noted = refl

-- Short lists of what is allowed, and a test that lets every confidence pass.
abbrev limits : Limits
limits = record {
  required = text "role" ∷ text "status" ∷ [];
  roles_sender = text "Coder" ∷ text "Tester" ∷ [];
  roles_to = text "Tester" ∷ text "None" ∷ [];
  statuses = text "IN_PROGRESS" ∷ text "BLOCKED" ∷ text "DONE" ∷ [];
  phases = text "testing" ∷ [];
  out_of_bounds = λ v. some false;
  max_summary = 800;
}

abbrev in_progress : Fields
in_progress =
    field (text "role") (string (text "Coder"))
      (field (text "status") (string (text "IN_PROGRESS")) end)

in_progress_passes : validate_without_schema limits (object in_progress) true ≡ ok []
unfolding validate_without_schema python_structural missing_fields enum_problem confidence_problem
    summary_problem has_key get get_or in_set contains is_null when done_extras equals_text text_eq
in_progress_passes = refl

validate_without_schema-IsStructured_example :
    IsStructured limits in_progress × (done_extras in_progress true ≡ [])
validate_without_schema-IsStructured_example =
    validate_without_schema-IsStructured limits in_progress true in_progress_passes

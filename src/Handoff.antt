-- ===== src/Handoff.antt =====
-- memory/validate_handoff.py: which handoffs are accepted. The messages of the jsonschema validator are a
-- parameter; the checks that the program adds to them are here.
pub mod Done
pub mod Fallback
mod Tests
use agentic_loop_template.Base.{
  Bool, true, false, not, ◌&&◌, ◌||◌, List, [], ◌∷◌, ◌++◌, if◌then◌else◌,
}
use agentic_loop_template.Base.Text.{Text, text, is_empty}
use agentic_loop_template.Json.{
  Json, null, boolean, integer, float, string, array, object, Fields, get, truthy, equals_text,
  is_null, is_dict,
}

-- A message of `validate_handoff`.
pub data Problem : Type 0 where
  schema_problem : Text → Problem
  not_an_object : Problem
  done_needs_no_target : Problem
  done_needs_git_sync : Problem
  done_needs_lessons : Problem
  done_needs_metrics : Problem
  -- without the jsonschema package
  missing_field : Text → Problem
  invalid_field : Text → Problem
  confidence_out_of_range : Problem
  confidence_not_a_number : Problem
  summary_too_long : Problem

-- The jsonschema validator over schemas/handoff.schema.json: `iter_errors`.
abbrev pub Schema : Type 0
Schema = Json → List Text

problems_of : List Text → List Problem
problems_of [] = []
problems_of (message ∷ messages) = schema_problem message ∷ problems_of messages

-- `if condition: errors.append(p)`
unfoldable pub when : Bool → Problem → List Problem
when c p = if c then p ∷ [] else []

-- `isinstance(gss, dict) and gss.get("verified")`
unfoldable pub is_verified : Json → Bool
is_verified (object fs) = truthy (get (text "verified") fs)
is_verified v = false

strict_extras : Fields → List Problem
strict_extras fs =
    when
      (not (truthy (get (text "sync_waived") fs))
        && not (is_verified (get (text "git_sync_status") fs)))
      done_needs_git_sync
    ++ when
        (not (truthy (get (text "lessons_learned") fs))
          && not (truthy (get (text "distillation_performed") fs)))
        done_needs_lessons
    ++ when (not (is_dict (get (text "metrics") fs))) done_needs_metrics

-- `_done_extras`
unfoldable pub done_extras : Fields → Bool → List Problem
unfolding strict_extras
done_extras fs strict_done =
    if not (equals_text (text "DONE") (get (text "status") fs))
    then []
    else when
        (not (
          is_null (get (text "handoff_to") fs)
          || equals_text (text "None") (get (text "handoff_to") fs)))
        done_needs_no_target
      ++ (if strict_done then strict_extras fs else [])

unfoldable pub validate_handoff : Schema → Json → Bool → List Problem
unfolding problems_of
validate_handoff schema (object fs) strict_done =
    problems_of (schema (object fs)) ++ done_extras fs strict_done
validate_handoff schema v strict_done = not_an_object ∷ []

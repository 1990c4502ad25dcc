-- ===== src/Caps/Tests.antt =====
-- Limits of a concrete environment.
use agentic_loop_template.Base.{none, some, if◌then◌else◌}
use agentic_loop_template.Base.Int.{pos, negsuc}
use agentic_loop_template.Base.Text.{text, text_eq}
use agentic_loop_template.Json.{Json, integer, object, end, field}
use agentic_loop_template.Caps.{Environment, resolve_prompt_caps}
use agentic_loop_template.Caps.Positive.{IsPositive, resolve_prompt_caps-IsPositive}

-- One variable is set, to a number below 0; the configuration has another limit at 0.
abbrev environment : Environment
environment = record {
  parse_int = λ s. if text_eq s (text "-5") then some (negsuc 4) else none;
  parse_float = λ s. none;
  variable =
      λ name. if text_eq name (text "AGENTIX_SNAP_JSON_CHARS") then some (text "-5") else none;
}

abbrev configuration : Json
configuration = object (
    field (text "context_budget") (object (field (text "prompt_token_cap") (integer (pos 0)) end))
      end)

resolve_prompt_caps-IsPositive_example : IsPositive (resolve_prompt_caps environment configuration)
resolve_prompt_caps-IsPositive_example = resolve_prompt_caps-IsPositive environment configuration

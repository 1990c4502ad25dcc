-- ===== src/Caps.antt =====
-- memory/prompt_caps.py: the limits of the prompt, from the environment, the configuration and the defaults.
-- Warnings about a value that is passed over are left out.
pub mod Positive
mod Tests
use agentic_loop_template.Base.{
  ℕ, Bool, true, false, ◌&&◌, List, [], ◌∷◌, Option, none, some, if◌then◌else◌,
}
use agentic_loop_template.Base.Int.{ℤ, pos, is_positive}
use agentic_loop_template.Base.Text.{Text, text, is_empty, strip}
use agentic_loop_template.Json.{
  Json, null, boolean, integer, float, string, array, object, Float, finite, infinite, not_a_number,
  Fields, end, get, has_key,
}

pub record PromptCaps : Type 0 where
  pub prompt_body_chars : ℤ
  pub snap_json_chars : ℤ
  pub knowledge_budget_tokens : ℤ
  pub prompt_token_cap : ℤ

-- `int(s, 10)` and `float(s)`, with none for a ValueError, and the environment's variables.
pub record Environment : Type 0 where
  pub parse_int : Text → Option ℤ
  pub parse_float : Text → Option Float
  pub variable : Text → Option Text

-- `n if n > 0 else None`
unfoldable pub if_positive : ℤ → Option ℤ
if_positive n = if is_positive n then some n else none

-- A whole float above 0, as an integer.
unfoldable pub whole_positive : Float → Option ℤ
whole_positive (finite n whole) = if whole && is_positive n then some n else none
whole_positive infinite = none
whole_positive not_a_number = none

unfoldable pub parse_text : Environment → Text → Option ℤ
parse_text env s = if is_empty s then none else elim (env.parse_int s) [
  | some n ↦ if_positive n
  | none ↦ elim (env.parse_float s) [ some f ↦ whole_positive f | none ↦ none ]
]

-- `_parse_positive_int`
unfoldable pub parse_positive_int : Environment → Json → Option ℤ
parse_positive_int env null = none
parse_positive_int env (boolean b) = none
parse_positive_int env (integer n) = if_positive n
parse_positive_int env (float f) = whole_positive f
parse_positive_int env (string s) = parse_text env (strip s)
parse_positive_int env (array vs) = none
parse_positive_int env (object fs) = none

-- `_env_raw`
unfoldable pub env_raw : Environment → Text → Option Text
env_raw env name = elim (env.variable name) [
  | none ↦ none
  | some s ↦ if is_empty (strip s) then none else some s
]

unfoldable pub or_default : Option ℤ → ℤ → ℤ
or_default none default = default
or_default (some n) default = n

-- `_resolve_one`
unfoldable pub resolve_one : Environment → Fields → Text → Text → ℤ → ℤ
resolve_one env budget key env_name default = elim (env_raw env env_name) [
  | some s ↦ or_default (parse_positive_int env (string s)) default
  | none ↦
      if has_key key budget
      then or_default (parse_positive_int env (get key budget)) default
      else default
]

-- `cfg.get("context_budget")`, if both are objects
unfoldable pub budget_of : Json → Fields
budget_of (object cfg) = elim (get (text "context_budget") cfg) [ object budget ↦ budget | _ ↦ end ]
budget_of v = end

unfoldable pub resolve_prompt_caps : Environment → Json → PromptCaps
resolve_prompt_caps env cfg = record {
  prompt_body_chars =
      resolve_one env (budget_of cfg) (text "prompt_body_chars") (text "AGENTIX_PROMPT_BODY_CHARS")
        (pos 8000);
  snap_json_chars =
      resolve_one env (budget_of cfg) (text "snap_json_chars") (text "AGENTIX_SNAP_JSON_CHARS")
        (pos 4000);
  knowledge_budget_tokens =
      resolve_one env (budget_of cfg) (text "knowledge_budget_tokens")
        (text "AGENTIX_KNOWLEDGE_BUDGET_TOKENS") (pos 800);
  prompt_token_cap =
      resolve_one env (budget_of cfg) (text "prompt_token_cap") (text "AGENTIX_PROMPT_TOKEN_CAP")
        (pos 8000);
}

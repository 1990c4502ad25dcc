-- ===== src/Caps/Positive.antt =====
-- memory/prompt_caps.py: no value of the environment or of the configuration makes a limit 0 or less.
use agentic_loop_template.Base.{
  ◌≡◌, refl, true, ◌&&◌, Option, none, some, inl, inr, Bool-cases, Option-cases, and_true,
}
use agentic_loop_template.Base.Int.{ℤ, pos, is_positive}
use agentic_loop_template.Base.Text.{Text, is_empty, strip}
use agentic_loop_template.Json.{
  Json, null, boolean, integer, float, string, array, object, Float, finite, infinite, not_a_number,
  Fields, get, has_key,
}
use agentic_loop_template.Caps.{
  PromptCaps, Environment, if_positive, whole_positive, parse_text, parse_positive_int, env_raw,
  or_default, resolve_one, budget_of, resolve_prompt_caps,
}

-- A number that was found is above 0.
abbrev pub Above : Option ℤ → Type 0
Above none = Unit
Above (some n) = is_positive n ≡ true

if_positive-Above : (n : ℤ) → Above (if_positive n)
unfolding if_positive
if_positive-Above n = elim (Bool-cases (is_positive n)) [
  | inl yes_positive ↦ rw yes_positive yes_positive
  | inr other ↦ rw other tt
]

whole_positive-Above : (f : Float) → Above (whole_positive f)
unfolding whole_positive
whole_positive-Above (finite n whole) = elim (Bool-cases (whole && is_positive n)) [
  | inl both ↦ rw both ((and_true whole (is_positive n) both).1)
  | inr other ↦ rw other tt
]
whole_positive-Above infinite = tt
whole_positive-Above not_a_number = tt

number_or_float : (env : Environment) (s : Text) → Above (parse_text env s)
unfolding parse_text
number_or_float env s = elim (Bool-cases (is_empty s)) [
  | inl blank ↦ rw (blank, parse_text) tt
  | inr word ↦ elim (Option-cases (env.parse_int s)) [
    | inr (n, e) ↦ rw (word, e, parse_text) (if_positive-Above n)
    | inl no_int ↦ elim (Option-cases (env.parse_float s)) [
      | inr (f, e) ↦ rw (word, no_int, e, parse_text) (whole_positive-Above f)
      | inl no_float ↦ rw (word, no_int, no_float, parse_text) tt
    ]
  ]
]

parse_positive_int-Above : (env : Environment) (v : Json) → Above (parse_positive_int env v)
unfolding parse_positive_int
parse_positive_int-Above env null = tt
parse_positive_int-Above env (boolean b) = tt
parse_positive_int-Above env (integer n) = if_positive-Above n
parse_positive_int-Above env (float f) = whole_positive-Above f
parse_positive_int-Above env (string s) = number_or_float env (strip s)
parse_positive_int-Above env (array vs) = tt
parse_positive_int-Above env (object fs) = tt

or_default-positive :
    (found : Option ℤ) (default : ℤ)
    → Above found
    → is_positive default ≡ true
    → is_positive (or_default found default) ≡ true
unfolding or_default
or_default-positive none default above h = h
or_default-positive (some n) default above h = above

resolve_one-positive :
    (env : Environment) (budget : Fields) (key env_name : Text) (default : ℤ)
    → is_positive default ≡ true
    → is_positive (resolve_one env budget key env_name default) ≡ true
unfolding resolve_one
resolve_one-positive env budget key env_name default h =
    elim (Option-cases (env_raw env env_name)) [
      | inr (s, e) ↦
          rw (e, resolve_one)
            (or_default-positive _ default (parse_positive_int-Above env (string s)) h)
      | inl unset ↦ elim (Bool-cases (has_key key budget)) [
        | inl there ↦
            rw (unset, there, resolve_one)
              (or_default-positive _ default (parse_positive_int-Above env (get key budget)) h)
        | inr absent ↦ rw (unset, absent, resolve_one) h
      ]
    ]

-- The four limits are above 0.
pub record IsPositive (caps : PromptCaps) : Type 0 where
  pub body : is_positive caps.prompt_body_chars ≡ true
  pub snap : is_positive caps.snap_json_chars ≡ true
  pub knowledge : is_positive caps.knowledge_budget_tokens ≡ true
  pub tokens : is_positive caps.prompt_token_cap ≡ true

-- Whatever the environment and the configuration hold, the four limits that are resolved are above 0.
pub resolve_prompt_caps-IsPositive :
    (env : Environment) (cfg : Json) → IsPositive (resolve_prompt_caps env cfg)
unfolding resolve_prompt_caps
resolve_prompt_caps-IsPositive env cfg = record {
  body = resolve_one-positive env (budget_of cfg) _ _ (pos 8000) refl;
  snap = resolve_one-positive env (budget_of cfg) _ _ (pos 4000) refl;
  knowledge = resolve_one-positive env (budget_of cfg) _ _ (pos 800) refl;
  tokens = resolve_one-positive env (budget_of cfg) _ _ (pos 8000) refl;
}

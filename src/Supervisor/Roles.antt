-- ===== src/Supervisor/Roles.antt =====
-- memory/supervisor.py: which role is next, and what a terminal means.
pub mod Targets
pub mod Edges
use agentic_loop_template.Base.{
  Bool, true, false, not, ◌&&◌, ◌||◌, List, [], ◌∷◌, Option, none, some, ltb, if◌then◌else◌, Result,
  ok, err, ◌>>=◌,
}
use agentic_loop_template.Base.Int.{ℤ, pos, negsuc, is_positive}
use agentic_loop_template.Base.Text.{Text, text, is_empty, text_eq, upper, strip}
use agentic_loop_template.Json.{
  Json, null, boolean, integer, float, string, array, object, Fields, finite, infinite,
  not_a_number, Crash, overflow_error, get, upper_of, equals_text, is_null, in_set, contains,
}

pub data Terminal : Type 0 where
  pr_ready pr_ready_local blocked stopped_limit stopped : Terminal

-- `Terminal.value`
unfoldable pub value : Terminal → Text
value pr_ready = text "PR_READY"
value pr_ready_local = text "PR_READY_LOCAL"
value blocked = text "BLOCKED"
value stopped_limit = text "STOPPED_LIMIT"
value stopped = text "STOPPED"

pub data Next : Type 0 where
  role : Text → Next
  terminal : Terminal → Next

abbrev pub orchestrator : Text
orchestrator = text "Orchestrator"

abbrev pub coder : Text
coder = text "Coder"

abbrev pub tester : Text
tester = text "Tester"

abbrev pub debugger : Text
debugger = text "Debugger"

abbrev pub reviewer : Text
reviewer = text "Reviewer"

-- `_ALLOWED_HANDOFF.get(role, set())`
unfoldable pub allowed_handoff : Text → List Text
allowed_handoff r =
    if text_eq r orchestrator
    then coder ∷ []
    else if text_eq r coder
    then tester ∷ []
    else if text_eq r tester
    then reviewer ∷ debugger ∷ []
    else if text_eq r debugger
    then tester ∷ []
    else if text_eq r reviewer
    then orchestrator ∷ []
    else []

-- `_DEFAULT_CHAIN.get(role, Terminal.BLOCKED)`
unfoldable pub default_chain : Text → Next
default_chain r =
    if text_eq r orchestrator
    then role coder
    else if text_eq r coder
    then role tester
    else if text_eq r debugger
    then role tester
    else if text_eq r reviewer
    then role orchestrator
    else terminal blocked

-- `int(raw)`, with 0 for a TypeError or a ValueError. `int` of a string is a parameter.
unfoldable pub int_or_zero : (Text → Option ℤ) → Json → Result Crash ℤ
int_or_zero parse (integer n) = ok n
int_or_zero parse (boolean true) = ok (pos 1)
int_or_zero parse (boolean false) = ok (pos 0)
int_or_zero parse (float (finite n whole)) = ok n
int_or_zero parse (float infinite) = err overflow_error
int_or_zero parse (float not_a_number) = ok (pos 0)
int_or_zero parse (string s) = elim (parse s) [ none ↦ ok (pos 0) | some n ↦ ok n ]
int_or_zero parse null = ok (pos 0)
int_or_zero parse (array vs) = ok (pos 0)
int_or_zero parse (object fs) = ok (pos 0)

-- `_tests_failed`
unfoldable pub tests_failed : (Text → Option ℤ) → Json → Result Crash ℤ
tests_failed parse (object metrics) = int_or_zero parse (get (text "tests_failed") metrics)
tests_failed parse v = ok (pos 0)

-- The last part of `next_role`: the target is one that the role may name, or none.
unfoldable pub follow : Text → Json → Result Crash Next
follow current_role to = in_set to (allowed_handoff current_role) >>= λ is_allowed. elim to [
  | string s ↦ ok (
      if is_allowed
      then role s
      else if is_empty s || text_eq s (text "None")
      then default_chain current_role
      else terminal blocked)
  | null ↦ ok (default_chain current_role)
  | _ ↦ ok (terminal blocked)
]

unfoldable pub after_tester : (Text → Option ℤ) → Fields → Result Crash Next
after_tester parse handoff = tests_failed parse (get (text "metrics") handoff) >>= λ failed. ok (
    role (
      if is_positive failed || equals_text debugger (get (text "handoff_to") handoff)
      then debugger
      else reviewer))

unfoldable pub next_role : (Text → Option ℤ) → Text → Fields → Result Crash Next
next_role parse current_role handoff = upper_of (get (text "status") handoff) >>= λ status.
    if text_eq status (text "BLOCKED")
    then ok (terminal blocked)
    else if text_eq status (text "DONE")
    then ok (terminal (if text_eq current_role reviewer then pr_ready else blocked))
    else if text_eq current_role tester
    then after_tester parse handoff
    else follow current_role (get (text "handoff_to") handoff)

-- `_exit_code_for`
unfoldable pub exit_code_for : Terminal → ℤ
exit_code_for pr_ready = pos 0
exit_code_for pr_ready_local = pos 0
exit_code_for stopped = pos 2
exit_code_for stopped_limit = pos 2
exit_code_for blocked = pos 1

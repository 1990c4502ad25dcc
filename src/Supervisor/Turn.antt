-- ===== src/Supervisor/Turn.antt =====
-- memory/supervisor.py: one role turn of `run_loop`, with its retries. The adapter, the readiness of the
-- proxy and the clock are parameters.
pub mod Keeps
use agentic_loop_template.Base.{
  ℕ, zero, suc, Bool, true, false, List, [], ◌∷◌, Option, none, some, length, if◌then◌else◌, Result,
  ok, err,
}
use agentic_loop_template.Base.Int.{ℤ}
use agentic_loop_template.Base.Text.{Text, text, is_empty, text_eq, strip}
use agentic_loop_template.Json.{
  Json, object, Fields, Crash, attribute_error, get, upper_of, contains,
}
use agentic_loop_template.Handoff.{Problem, Schema, validate_handoff}
use agentic_loop_template.State.{TooLarge, Store}

-- What `assert_ready` and `get_adapter` do.
pub data Opening : Type 0 where
  ready : Opening
  not_ready : Text → Opening
  failed : Crash → Opening

-- What `run_role_turn` and the reading of its file do.
pub data AdapterOutcome : Type 0 where
  raised : Text → AdapterOutcome
  returned : Json → AdapterOutcome

-- `retry_note`
pub data Note : Type 0 where
  no_note : Note
  exception_note : Text → Note
  validation_note : List Problem → Note

-- `shutil.which("gh")` and the exit status of `gh pr create`.
pub data Gh : Type 0 where
  no_gh : Gh
  exited : ℤ → Gh

-- "reason" of the result, and what the notes of the state say of it.
pub data Reason : Type 0 where
  no_reason : Reason
  stack_check_failed : Text → Reason
  proxy_not_ready : Text → Reason
  adapter_raised : Text → Reason
  rejected : List Problem → Reason
  policy_tags : List Text → Reason

-- What is outside the program. A call is numbered by the adapter calls before it, a turn by the turns.
pub record World : Type 0 where
  pub schema : Schema
  -- `int(s)` of a string
  pub parse_int : Text → Option ℤ
  pub too_large : TooLarge
  pub now : ℕ → Text
  pub stop_file : ℕ → Bool
  -- the first `assert_ready`, with the message of a ProxyNotReady
  pub assert_ready : Text → Option Text
  pub open_adapter : ℕ → Text → Opening
  -- the call, the role, the handoff and the note that the prompt is made of
  pub run_role_turn : ℕ → Text → Option Fields → Note → AdapterOutcome
  pub gh : ℕ → Gh
  pub stack_check : Option Text
  -- `str` of a reason, and a value in an f-string
  pub reason_text : Reason → Text
  pub format : Json → Text

-- The supervisor's part of the configuration and the arguments of `run_loop`, defaults filled in.
pub record Config : Type 0 where
  pub cli_adapter : Option Text
  pub adapters_by_role : List (Text × Text)
  pub adapter : Option Text
  pub max_cycles : ℤ
  pub max_role_retries : ℤ
  pub max_turns_floor : ℤ
  pub max_turns_factor : ℤ
  pub block_process_tags : List Text
  pub create_pr : Bool

-- The files of .agent/ and the adapters opened so far, with a log of the adapter calls and of the turns
-- whose handoff was accepted, the last one first.
pub record Run : Type 0 where
  pub store : Store
  pub last_handoff : Option Fields
  pub opened : List Text
  -- the rows of metrics.jsonl: role, status, adapter
  pub metrics : List (Text × Json × Text)
  pub calls : List Text
  pub accepted : List (Text × Fields)

role_entry : Text → List (Text × Text) → Option Text
role_entry r [] = none
role_entry r ((k, name) ∷ entries) = if text_eq k r then some name else role_entry r entries

-- `x or default` for a string that may be None
unfoldable pub or_text : Option Text → Text → Text
or_text none default = default
or_text (some s) default = if is_empty s then default else s

configured : Config → Text → Text
unfolding role_entry
configured cfg r = elim (role_entry r cfg.adapters_by_role) [
  | none ↦ or_text cfg.adapter (text "mock")
  | some name ↦ if is_empty (strip name) then or_text cfg.adapter (text "mock") else strip name
]

unfoldable pub resolve_adapter_for_role : Config → Text → Text
unfolding configured
resolve_adapter_for_role cfg r = or_text cfg.cli_adapter (configured cfg r)

-- `_adapter_for`
unfoldable pub adapter_for : World → Config → Text → Run → Opening × Run
adapter_for world cfg r run =
    let name = resolve_adapter_for_role cfg r in
    if contains name run.opened
    then (ready, run)
    else elim (world.open_adapter (length run.calls) name) [
      | ready ↦ (ready, record run { opened = name ∷ run.opened })
      | not_ready why ↦ (not_ready why, run)
      | failed c ↦ (failed c, run)
    ]

-- What one attempt at a turn comes to; a retry carries the handoff and the note of the next prompt.
pub data Attempt : Type 0 where
  accept : Fields → Attempt
  retry : Option Fields → Note → Reason → Attempt
  give_up : Reason → Attempt
  escape : Crash → Attempt

-- The handoff that the adapter left: `strict` is whether its status is DONE.
unfoldable pub checked : World → Json → Attempt
checked world (object fs) = elim (upper_of (get (text "status") fs)) [
  | err c ↦ escape c
  | ok status ↦ elim (validate_handoff world.schema (object fs) (text_eq status (text "DONE"))) [
    | [] ↦ accept fs
    | problem ∷ problems ↦
        retry (some fs) (validation_note (problem ∷ problems)) (rejected (problem ∷ problems))
  ]
]
checked world v = escape attribute_error

unfoldable pub call_adapter : World → Text → Option Fields → Note → Run → Attempt × Run
call_adapter world r handoff note run =
    let after = record run { calls = r ∷ run.calls } in
    elim (world.run_role_turn (length run.calls) r handoff note) [
      | raised why ↦ (retry handoff (exception_note why) (adapter_raised why), after)
      | returned v ↦ (checked world v, after)
    ]

unfoldable pub attempt : World → Config → Text → Option Fields → Note → Run → Attempt × Run
attempt world cfg r handoff note run =
    let (opening, run1) = adapter_for world cfg r run in
    elim opening [
      | ready ↦ call_adapter world r handoff note run1
      | not_ready why ↦ (give_up (proxy_not_ready why), run1)
      | failed c ↦ (escape c, run1)
    ]

-- The inner loop, with as many retries left: it ends in an accepted handoff, or in no retry left.
unfoldable pub role_turn : World → Config → Text → ℕ → Option Fields → Note → Run → Attempt × Run
role_turn world cfg r zero handoff note run =
    let (tried, run1) = attempt world cfg r handoff note run in
    elim tried [
      | retry h n why ↦ (give_up why, run1)
      | accept fs ↦ (accept fs, run1)
      | give_up why ↦ (give_up why, run1)
      | escape c ↦ (escape c, run1)
    ]
role_turn world cfg r (suc left) handoff note run =
    let (tried, run1) = attempt world cfg r handoff note run in
    elim tried [
      | retry h n why ↦ role_turn world cfg r left h n run1
      | accept fs ↦ (accept fs, run1)
      | give_up why ↦ (give_up why, run1)
      | escape c ↦ (escape c, run1)
    ]

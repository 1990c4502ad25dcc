-- ===== src/State.antt =====
-- memory/state.py: the bounded LOOP_STATE and the history it spills into. Every write runs under the lock
-- of memory/agent_lock.py, so it is one step of the store. Of the state's keys, those are here that the code
-- computes with; the rest is carried along.
pub mod Bounds
pub mod History
mod Tests
use agentic_loop_template.Base.{
  ℕ, ◌-◌, Bool, true, false, List, [], ◌∷◌, ◌++◌, take, drop, length, ltb, if◌then◌else◌,
}
use agentic_loop_template.Base.Int.{ℤ, pos}
use agentic_loop_template.Base.Text.{Text, text, strip}

pub record Delta : Type 0 where
  pub ts : Text
  pub role : Text
  pub body : Text

pub record LoopState : Type 0 where
  pub cycle_number : ℤ
  pub active_role : Text
  pub status : Text
  pub notes : Text
  -- git_sync.commands_run
  pub commands_run : List Text
  pub open_invest : List Text
  pub recent_deltas : List Delta

pub data StateFile : Type 0 where
  missing : StateFile
  -- no JSON, or no object
  unreadable : StateFile
  saved_as : LoopState → StateFile

pub data HistoryRecord : Type 0 where
  deltas_overflow : List Delta → HistoryRecord
  delta : Delta → HistoryRecord

-- LOOP_STATE.json, and the lines of .agent/history/ in the order they were written.
pub record Store : Type 0 where
  pub file : StateFile
  pub history : List HistoryRecord

-- `xs[-n:]` and `xs[:-n]` for a positive n
unfoldable pub last {ℓ} : {A : Type ℓ} → ℕ → List A → List A
last n xs = drop (length xs - n) xs

unfoldable pub but_last {ℓ} : {A : Type ℓ} → ℕ → List A → List A
but_last n xs = take (length xs - n) xs

abbrev pub max_deltas : ℕ
max_deltas = 5

abbrev pub max_open_invest : ℕ
max_open_invest = 20

abbrev pub default_state : LoopState
default_state = record {
  cycle_number = pos 0;
  active_role = text "Orchestrator";
  status = text "READY";
  notes = text "Use `python -m memory state snapshot` — never read full archive history.";
  commands_run = [];
  open_invest = [];
  recent_deltas = [];
}

-- The text of the JSON is longer than MAX_WORKING_JSON_BYTES.
abbrev pub TooLarge : Type 0
TooLarge = LoopState → Bool

-- The caps on the lists.
unfoldable pub capped : LoopState → LoopState
capped st = record st {
  recent_deltas =
      if ltb max_deltas (length st.recent_deltas)
      then last max_deltas st.recent_deltas
      else st.recent_deltas;
  open_invest = take max_open_invest st.open_invest;
}

unfoldable pub trimmed : TooLarge → LoopState → LoopState
trimmed too_large st =
    if too_large st
    then record st { commands_run = last 3 st.commands_run; notes = text "truncated" }
    else st

unfoldable pub overflow : LoopState → List HistoryRecord
overflow st =
    if ltb max_deltas (length st.recent_deltas)
    then deltas_overflow (but_last max_deltas st.recent_deltas) ∷ []
    else []

-- `_save_state_unlocked`
unfoldable pub save_state : TooLarge → LoopState → Store → Store
save_state too_large st store = record {
  file = saved_as (trimmed too_large (capped st));
  history = store.history ++ overflow st;
}

-- `_read_state_readonly`
unfoldable pub read_state : Store → LoopState
read_state store = elim store.file [
  | missing ↦ default_state
  | unreadable ↦ default_state
  | saved_as st ↦ st
]

-- `update_state`, for a patch or a function that changes the state
unfoldable pub update_state : TooLarge → (LoopState → LoopState) → Store → Store
update_state too_large change store = save_state too_large (change (read_state store)) store

-- `load_state`, with no LOOP_STATE.md of an older version to migrate: the state, and the store it leaves.
unfoldable pub load_state : TooLarge → Store → LoopState × Store
load_state too_large store = elim store.file [
  | missing ↦ (default_state, save_state too_large default_state store)
  | unreadable ↦ (default_state, store)
  | saved_as st ↦ (st, store)
]

unfoldable pub new_delta : Text → Text → Text → Delta
new_delta now role body = record { ts = now; role = role; body = take 500 (strip body) }

unfoldable pub with_delta : Delta → LoopState → LoopState
with_delta d st = record st { recent_deltas = st.recent_deltas ++ d ∷ [] }

-- `append_delta`
unfoldable pub append_delta : TooLarge → Text → Text → Text → Store → Store
append_delta too_large now role body store =
    let d = new_delta now role body in
    let after = update_state too_large (with_delta d) store in
    record after { history = after.history ++ delta d ∷ [] }

-- `deltas[-max(1, window):]` of `snapshot`, with the first ten open investigations
unfoldable pub snapshot_deltas : ℕ → Store → List Delta
snapshot_deltas window store =
    last (if ltb window 1 then 1 else window) (read_state store).recent_deltas

unfoldable pub snapshot_invest : Store → List Text
snapshot_invest store = take 10 (read_state store).open_invest

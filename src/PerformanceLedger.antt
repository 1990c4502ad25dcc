-- ===== src/PerformanceLedger.antt =====
-- memory/performance_ledger.py: the window of cycle records. Each append runs under the lock of
-- memory/agent_lock.py, so it is one step of the files. A JSON file of another shape is outside of the model.
pub mod Window
mod Tests
use agentic_loop_template.Base.{
  ℕ, zero, suc, Bool, true, false, not, List, [], ◌∷◌, ◌++◌, Option, none, some, take, length, ltb,
  if◌then◌else◌,
}
use agentic_loop_template.Base.Int.{pos}
use agentic_loop_template.Base.Text.{Text, text, is_empty}
use agentic_loop_template.Json.{
  Json, integer, float, finite, string, array, nil, Fields, end, field, get, get_or, is_null,
}
use agentic_loop_template.State.{last}

abbrev pub max_cycles : ℕ
max_cycles = 50

-- "cycles", and "total_cycles" of "summary"
pub record Ledger : Type 0 where
  pub cycles : List Fields
  pub total_cycles : ℕ

pub data LedgerFile : Type 0 where
  missing : LedgerFile
  -- anything that `json.load` does not read
  unreadable : LedgerFile
  saved : Ledger → LedgerFile

-- PERFORMANCE_LEDGER.json, and the lines of LOOP_PERFORMANCE.md.
pub record Files : Type 0 where
  pub ledger : LedgerFile
  pub proposals : List Text

abbrev pub empty_ledger : Ledger
empty_ledger = record { cycles = []; total_cycles = 0 }

unfoldable pub load_ledger : LedgerFile → Ledger
load_ledger missing = empty_ledger
load_ledger unreadable = empty_ledger
load_ledger (saved l) = l

unfoldable pub exists : LedgerFile → Bool
exists missing = false
exists unreadable = true
exists (saved l) = true

-- `if kwargs.get(key) is not None: record[key] = kwargs[key]`
unfoldable pub with_optional : Text → Fields → Fields
with_optional key kwargs = let v = get key kwargs in if is_null v then end else field key v end

unfoldable pub append_fields : Fields → Fields → Fields
append_fields end more = more
append_fields (field k v fs) more = field k v (append_fields fs more)

-- `record`
unfoldable pub cycle_record : Text → Fields → Fields
cycle_record now kwargs =
    let zero_int = integer (pos 0) in
    let zero_float = float (finite (pos 0) true) in
    field (text "cycle") (get (text "cycle") kwargs) (
      field (text "timestamp") (string now) (
        field (text "outcome") (get_or (string (text "DONE")) (text "outcome") kwargs) (
          field (text "elapsed_minutes") (get_or zero_float (text "elapsed_minutes") kwargs) (
            field (text "tool_calls") (get_or zero_int (text "tool_calls") kwargs) (
              field (text "tokens_est") (get_or zero_int (text "tokens_est") kwargs) (
                field (text "confidence") (get_or zero_float (text "confidence") kwargs) (
                  field (text "tests_total") (get_or zero_int (text "tests_total") kwargs) (
                    field (text "tests_failed") (get_or zero_int (text "tests_failed") kwargs) (
                      field (text "violations") (get_or zero_int (text "violations") kwargs) (
                        field (text "meta_generated")
                          (get_or zero_int (text "meta_generated") kwargs)
                          (field (text "meta_applied")
                            (get_or zero_int (text "meta_applied") kwargs)
                            (field (text "success_patterns")
                              (get_or (array nil) (text "success_patterns") kwargs)
                              (field (text "notes") (get_or (string []) (text "notes") kwargs) (
                                append_fields (with_optional (text "proxy_stats") kwargs)
                                  (with_optional (text "details") kwargs)))))))))))))))

unfoldable pub window : List Fields → List Fields
window cycles = if ltb max_cycles (length cycles) then last max_cycles cycles else cycles

-- The ledger with one more record.
unfoldable pub with_cycle : Fields → Ledger → Ledger
with_cycle r l =
    let kept = window (l.cycles ++ r ∷ []) in record { cycles = kept; total_cycles = length kept }

-- `_append_proposal_line`
unfoldable pub append_proposal_line : Text → List Text → List Text
append_proposal_line line lines = last max_cycles (lines ++ line ∷ [])

unfoldable pub append_ledger : Text → Bool → Fields → LedgerFile → LedgerFile
append_ledger now true kwargs file = saved (with_cycle (cycle_record now kwargs) (load_ledger file))
append_ledger now false kwargs file = if exists file then file else saved (load_ledger file)

-- `append_cycle`: the line is none where there is no proposal id.
unfoldable pub append_cycle : Text → Bool → Fields → Option Text → Files → Files
append_cycle now persist_cycle kwargs none files = record files {
  ledger = append_ledger now persist_cycle kwargs files.ledger;
}
append_cycle now persist_cycle kwargs (some line) files = record {
  ledger = append_ledger now persist_cycle kwargs files.ledger;
  proposals = append_proposal_line line files.proposals;
}

-- `reversed`
abbrev pub reversed : List Fields → List Fields
reversed [] = []
reversed (x ∷ xs) = reversed xs ++ x ∷ []

unfoldable pub get_recent : ℕ → LedgerFile → List Fields
get_recent n file = take n (reversed (load_ledger file).cycles)

-- ===== src/PerformanceLedger/Tests.antt =====
-- Two cycles in the ledger.
use agentic_loop_template.Base.{ℕ, ◌≤◌, List, [], ◌∷◌, Option, none, some, take, length, ◌≡◌, arith}
use agentic_loop_template.Base.Int.{pos}
use agentic_loop_template.Base.Text.{Text, text}
use agentic_loop_template.Json.{integer, Fields, end, field}
use agentic_loop_template.PerformanceLedger.{max_cycles, load_ledger, get_recent}
use agentic_loop_template.PerformanceLedger.Window.{after_calls, records_of, get_recent-calls}

abbrev cycle : ℕ → Fields
cycle n = field (text "cycle") (integer (pos n)) end

abbrev calls : List (Text × Fields × Option Text)
calls = (text "13:00", cycle 2, some (text "- applied")) ∷ (text "12:00", cycle 1, none) ∷ []

one_is_few : 1 ≤ max_cycles
one_is_few = omega arith

get_recent-calls_example :
    (get_recent 1 (after_calls calls).ledger ≡ take 1 (records_of calls))
    × (length (load_ledger (after_calls calls).ledger).cycles ≤ max_cycles)
    × ((load_ledger (after_calls calls).ledger).total_cycles
        ≡ length (load_ledger (after_calls calls).ledger).cycles)
get_recent-calls_example = get_recent-calls calls 1 one_is_few

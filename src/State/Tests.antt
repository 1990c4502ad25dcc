-- ===== src/State/Tests.antt =====
-- Writes of the loop state on concrete stores.
use agentic_loop_template.Base.{◌≡◌, false, [], ◌∷◌, ◌++◌}
use agentic_loop_template.Base.Text.{Text, text}
use agentic_loop_template.State.{
  Delta, LoopState, Store, saved_as, default_state, read_state, update_state, new_delta,
  append_delta,
}
use agentic_loop_template.State.Bounds.{IsBounded, update_state-IsBounded}
use agentic_loop_template.State.History.{all_deltas, all_deltas-append_delta}

abbrev note : Text → Delta
note s = record { ts = text "1"; role = text "Coder"; body = s }

-- A state whose working set is full.
abbrev full_state : LoopState
full_state = record default_state {
  recent_deltas =
      note (text "a") ∷ note (text "b") ∷ note (text "c") ∷ note (text "d") ∷ note (text "e") ∷ [];
}

abbrev full_store : Store
full_store = record { file = saved_as full_state; history = [] }

all_deltas-append_delta_example :
    all_deltas (append_delta (λ st. false) (text "2") (text "Tester") (text "f") full_store)
    ≡ all_deltas full_store ++ new_delta (text "2") (text "Tester") (text "f") ∷ []
all_deltas-append_delta_example =
    all_deltas-append_delta (λ st. false) (text "2") (text "Tester") (text "f") full_store

update_state-IsBounded_example :
    IsBounded (read_state (update_state (λ st. false) (λ st. full_state) full_store))
update_state-IsBounded_example = update_state-IsBounded (λ st. false) (λ st. full_state) full_store

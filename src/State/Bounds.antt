-- ===== src/State/Bounds.antt =====
-- memory/state.py: the lists of the state that is saved stay within their caps.
use agentic_loop_template.Base.{
  ℕ, zero, suc, ◌-◌, ◌≤◌, ◌≡◌, inl, inr, List, [], ◌∷◌, take, drop, length, ltb, arith, Bool-cases,
}
use agentic_loop_template.Base.Text.{Text}
use agentic_loop_template.State.{
  LoopState, Store, last, capped, trimmed, TooLarge, save_state, read_state, update_state,
  append_delta, with_delta, new_delta, max_deltas, max_open_invest,
}

-- The lists of the saved state are within their caps on entries.
pub record IsBounded (st : LoopState) : Type 0 where
  pub deltas : length st.recent_deltas ≤ max_deltas
  pub invest : length st.open_invest ≤ max_open_invest

pub length-drop {ℓ} : {A : Type ℓ} (n : ℕ) (xs : List A) → length (drop n xs) ≡ length xs - n
length-drop zero xs = omega arith
length-drop (suc n) [] = omega arith
length-drop (suc n) (x ∷ xs) = omega (arith, length-drop n xs)

length-take_le {ℓ} : {A : Type ℓ} (n : ℕ) (xs : List A) → length (take n xs) ≤ n
length-take_le zero xs = omega arith
length-take_le (suc n) [] = omega arith
length-take_le (suc n) (x ∷ xs) = omega (arith, length-take_le n xs)

pub length-last_le {ℓ} : {A : Type ℓ} (n : ℕ) (xs : List A) → length (last n xs) ≤ n
unfolding last
length-last_le n xs = omega (arith, length-drop (length xs - n) xs)

capped-IsBounded : (st : LoopState) → IsBounded (capped st)
unfolding capped
capped-IsBounded st = record {
  deltas = elim (Bool-cases (ltb max_deltas (length st.recent_deltas))) [
    | inl more ↦ rw more (length-last_le max_deltas st.recent_deltas)
    | inr few ↦ ground arith
  ];
  invest = length-take_le max_open_invest st.open_invest;
}

trimmed-IsBounded :
    (too_large : TooLarge) (st : LoopState) → IsBounded st → IsBounded (trimmed too_large st)
unfolding trimmed
trimmed-IsBounded too_large st h = elim (Bool-cases (too_large st)) [
  | inl large ↦ rw large (record { deltas = h.deltas; invest = h.invest })
  | inr small ↦ rw small h
]

save_state-IsBounded :
    (too_large : TooLarge) (st : LoopState) (store : Store)
    → IsBounded (read_state (save_state too_large st store))
unfolding save_state read_state
save_state-IsBounded too_large st store =
    trimmed-IsBounded too_large (capped st) (capped-IsBounded st)

-- Whatever the store held and whatever the change does, `update_state` leaves a state whose deltas and open investigations
-- are at most MAX_DELTAS and MAX_OPEN_INVEST. Its size in bytes, which the code trims but does not bound, is not in it.
pub update_state-IsBounded :
    (too_large : TooLarge) (change : LoopState → LoopState) (store : Store)
    → IsBounded (read_state (update_state too_large change store))
unfolding update_state
update_state-IsBounded too_large change store =
    save_state-IsBounded too_large (change (read_state store)) store

append_delta-IsBounded :
    (too_large : TooLarge) (now role body : Text) (store : Store)
    → IsBounded (read_state (append_delta too_large now role body store))
unfolding append_delta read_state
append_delta-IsBounded too_large now role body store =
    update_state-IsBounded too_large (with_delta (new_delta now role body)) store

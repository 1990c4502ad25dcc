-- ===== src/State/History.antt =====
-- memory/state.py: no delta is lost when the working set overflows into the history.
use agentic_loop_template.Base.{
  ℕ, zero, suc, ◌-◌, ◌≡◌, refl, sym, ap, ◌∙◌, inl, inr, List, [], ◌∷◌, ◌++◌, take, drop, length,
  ltb, Bool-cases,
}
use agentic_loop_template.Base.Text.{Text}
use agentic_loop_template.State.{
  Delta, LoopState, HistoryRecord, deltas_overflow, delta, Store, last, but_last, capped, trimmed,
  overflow, TooLarge, save_state, read_state, update_state, append_delta, with_delta, new_delta,
  max_deltas,
}

-- The deltas that overflowed into the history, in the order of its lines.
archived : List HistoryRecord → List Delta
archived [] = []
archived (deltas_overflow ds ∷ records) = ds ++ archived records
archived (delta d ∷ records) = archived records

-- Every delta the store knows: those that overflowed, then the recent ones.
pub all_deltas : Store → List Delta
unfolding archived
all_deltas store = archived store.history ++ (read_state store).recent_deltas

module _ {ℓ} {A : Type ℓ} where
  append_assoc : (xs ys zs : List A) → (xs ++ ys) ++ zs ≡ xs ++ (ys ++ zs)
  append_assoc [] ys zs = refl
  append_assoc (x ∷ xs) ys zs = ap (λ t. x ∷ t) (append_assoc xs ys zs)

  append-nil : (xs : List A) → xs ++ [] ≡ xs
  append-nil [] = refl
  append-nil (x ∷ xs) = ap (λ t. x ∷ t) (append-nil xs)

  take-drop : (n : ℕ) (xs : List A) → take n xs ++ drop n xs ≡ xs
  take-drop zero xs = refl
  take-drop (suc n) [] = refl
  take-drop (suc n) (x ∷ xs) = ap (λ t. x ∷ t) (take-drop n xs)

archived-append : (rs ss : List HistoryRecord) → archived (rs ++ ss) ≡ archived rs ++ archived ss
unfolding archived
archived-append [] ss = refl
archived-append (deltas_overflow ds ∷ rs) ss =
    ap (λ t. ds ++ t) (archived-append rs ss) ∙ sym (append_assoc ds (archived rs) (archived ss))
archived-append (delta d ∷ rs) ss = archived-append rs ss

-- What the caps cut off the deltas is what goes to the history.
overflow-capped :
    (st : LoopState) → archived (overflow st) ++ (capped st).recent_deltas ≡ st.recent_deltas
unfolding overflow capped archived but_last last
overflow-capped st = elim (Bool-cases (ltb max_deltas (length st.recent_deltas))) [
  | inl more ↦
      rw (more, append-nil (but_last max_deltas st.recent_deltas))
        (take-drop (length st.recent_deltas - max_deltas) st.recent_deltas)
  | inr few ↦ rw few refl
]

trimmed-deltas :
    (too_large : TooLarge) (st : LoopState)
    → (trimmed too_large st).recent_deltas ≡ st.recent_deltas
unfolding trimmed
trimmed-deltas too_large st = elim (Bool-cases (too_large st)) [
  | inl large ↦ rw large refl
  | inr small ↦ rw small refl
]

all_deltas-save :
    (too_large : TooLarge) (st : LoopState) (store : Store)
    → all_deltas (save_state too_large st store) ≡ archived store.history ++ st.recent_deltas
unfolding all_deltas save_state read_state
all_deltas-save too_large st store =
    rw (trimmed-deltas too_large (capped st), archived-append store.history (overflow st))
      (append_assoc (archived store.history) (archived (overflow st)) (capped st).recent_deltas
        ∙ ap (λ t. archived store.history ++ t) (overflow-capped st))

all_deltas-delta :
    (store : Store) (d : Delta)
    → all_deltas (record store { history = store.history ++ delta d ∷ [] }) ≡ all_deltas store
unfolding all_deltas read_state archived
all_deltas-delta store d =
    rw (archived-append store.history (delta d ∷ []), append-nil (archived store.history)) refl

-- The history's overflowed deltas followed by the recent ones are, after `append_delta`, those before it
-- followed by the new delta: none is lost, repeated or moved.
pub all_deltas-append_delta :
    (too_large : TooLarge) (now role body : Text) (store : Store)
    → all_deltas (append_delta too_large now role body store)
      ≡ all_deltas store ++ new_delta now role body ∷ []
unfolding append_delta update_state with_delta all_deltas
all_deltas-append_delta too_large now role body store =
    all_deltas-delta (update_state too_large (with_delta (new_delta now role body)) store)
      (new_delta now role body)
    ∙ all_deltas-save too_large (with_delta (new_delta now role body) (read_state store)) store
    ∙ sym (
        append_assoc (archived store.history) (read_state store).recent_deltas
          (new_delta now role body ∷ []))

-- An update that leaves the recent deltas alone loses none either.
all_deltas-update_state :
    (too_large : TooLarge) (change : LoopState → LoopState) (store : Store)
    → (change (read_state store)).recent_deltas ≡ (read_state store).recent_deltas
    → all_deltas (update_state too_large change store) ≡ all_deltas store
unfolding update_state all_deltas
all_deltas-update_state too_large change store same =
    all_deltas-save too_large (change (read_state store)) store
    ∙ ap (λ t. archived store.history ++ t) same

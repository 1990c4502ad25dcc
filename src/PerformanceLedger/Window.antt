-- ===== src/PerformanceLedger/Window.antt =====
-- memory/performance_ledger.py: the window against the whole history of cycles.
use agentic_loop_template.Base.{
  ℕ, zero, suc, ◌-◌, ◌≤◌, true, List, [], ◌∷◌, ◌++◌, Option, none, some, take, drop, length,
  length-append, ltb, ◌≡◌, refl, sym, ap, ◌∙◌, subst, inl, inr, Bool-cases, arith,
}
use mathlib.Core.List.{append_assoc, append-nil}
use agentic_loop_template.Base.Text.{Text}
use agentic_loop_template.Json.{Fields}
use agentic_loop_template.State.{last}
use agentic_loop_template.PerformanceLedger.{
  max_cycles, missing, Files, load_ledger, cycle_record, window, with_cycle, append_ledger,
  append_cycle, reversed, get_recent,
}

reversed-append : (xs ys : List Fields) → reversed (xs ++ ys) ≡ reversed ys ++ reversed xs
reversed-append [] ys = sym (append-nil (reversed ys))
reversed-append (x ∷ xs) ys =
    ap (λ zs. zs ++ x ∷ []) (reversed-append xs ys)
    ∙ append_assoc (reversed ys) (reversed xs) (x ∷ [])

length-reversed : (xs : List Fields) → length (reversed xs) ≡ length xs
length-reversed [] = refl
length-reversed (x ∷ xs) =
    let cut = length-append (reversed xs) (x ∷ []) in
    let rest = length-reversed xs in omega (arith, cut, rest)

take-drop : (k : ℕ) (xs : List Fields) → take k xs ++ drop k xs ≡ xs
take-drop zero xs = refl
take-drop (suc k) [] = refl
take-drop (suc k) (x ∷ xs) = ap (λ zs. x ∷ zs) (take-drop k xs)

length-drop : (k : ℕ) (xs : List Fields) → length (drop k xs) ≡ length xs - k
length-drop zero xs = omega arith
length-drop (suc k) [] = omega arith
length-drop (suc k) (x ∷ xs) = let rest = length-drop k xs in omega (arith, rest)

take-append : (n : ℕ) (xs ys : List Fields) → n ≤ length xs → take n (xs ++ ys) ≡ take n xs
take-append zero xs ys h = refl
take-append (suc n) [] ys h = absurd (omega (arith, h))
take-append (suc n) (x ∷ xs) ys h = ap (λ zs. x ∷ zs) (take-append n xs ys (omega (arith, h)))

-- What a window of the last records keeps of the newest ones.
window-recent :
    (n : ℕ) (xs : List Fields)
    → n ≤ max_cycles
    → take n (reversed (window xs)) ≡ take n (reversed xs)
unfolding window last
window-recent n xs h = elim (Bool-cases (ltb max_cycles (length xs))) [
  | inr fits ↦ rw fits refl
  | inl long ↦
      let k = length xs - max_cycles in
      let whole : reversed xs ≡ reversed (drop k xs) ++ reversed (take k xs) =
        ap reversed (sym (take-drop k xs)) ∙ reversed-append (take k xs) (drop k xs) in
      let kept = length-drop k xs in
      let same = length-reversed (drop k xs) in
      let over : max_cycles ≤ length xs = ground arith in
      let enough : n ≤ length (reversed (drop k xs)) = omega (arith, kept, same, over, h) in
      rw long (
        sym (take-append n (reversed (drop k xs)) (reversed (take k xs)) enough)
        ∙ ap (take n) (sym whole))
]

window-length : (xs : List Fields) → length (window xs) ≤ max_cycles
unfolding window last
window-length xs = elim (Bool-cases (ltb max_cycles (length xs))) [
  | inr fits ↦ rw fits (ground arith)
  | inl long ↦
      let kept = length-drop (length xs - max_cycles) xs in
      let over : max_cycles ≤ length xs = ground arith in rw long (omega (arith, kept, over))
]

take-cons :
    (n : ℕ) (x : Fields) (xs ys : List Fields)
    → ((m : ℕ) → suc m ≡ n → take m xs ≡ take m ys)
    → take n (x ∷ xs) ≡ take n (x ∷ ys)
take-cons zero x xs ys h = refl
take-cons (suc n) x xs ys h = ap (λ zs. x ∷ zs) (h n refl)

-- Calls of `append_cycle` that write a cycle, the newest first, on no file.
abbrev pub after_calls : List (Text × Fields × Option Text) → Files
after_calls [] = record { ledger = missing; proposals = [] }
after_calls ((now, kwargs, line) ∷ calls) = append_cycle now true kwargs line (after_calls calls)

abbrev pub records_of : List (Text × Fields × Option Text) → List Fields
records_of [] = []
records_of ((now, kwargs, line) ∷ calls) = cycle_record now kwargs ∷ records_of calls

append_cycle-ledger :
    (now : Text) (kwargs : Fields) (line : Option Text) (files : Files)
    → (append_cycle now true kwargs line files).ledger ≡ append_ledger now true kwargs files.ledger
unfolding append_cycle
append_cycle-ledger now kwargs none files = refl
append_cycle-ledger now kwargs (some line) files = refl

-- The window refines the whole history: however many cycles have been appended, the newest n of them, up to 50, are what
-- `get_recent` returns, the newest first; the ledger holds at most 50, and its total is the number that it holds.
pub get_recent-calls :
    (calls : List (Text × Fields × Option Text)) (n : ℕ)
    → n ≤ max_cycles
    → (get_recent n (after_calls calls).ledger ≡ take n (records_of calls))
      × (length (load_ledger (after_calls calls).ledger).cycles ≤ max_cycles)
      × ((load_ledger (after_calls calls).ledger).total_cycles
          ≡ length (load_ledger (after_calls calls).ledger).cycles)
unfolding get_recent load_ledger append_ledger with_cycle
get_recent-calls [] zero h = (refl, omega arith, refl)
get_recent-calls [] (suc n) h = (refl, omega arith, refl)
get_recent-calls ((now, kwargs, line) ∷ calls) n h =
    let before = (load_ledger (after_calls calls).ledger).cycles in
    let r = cycle_record now kwargs in
    let step = append_cycle-ledger now kwargs line (after_calls calls) in
    subst
      (λ file.
        (get_recent n file ≡ take n (r ∷ records_of calls))
        × (length (load_ledger file).cycles ≤ max_cycles)
        × ((load_ledger file).total_cycles ≡ length (load_ledger file).cycles))
      (sym step)
      (
        window-recent n (before ++ r ∷ []) h
            ∙ ap (take n) (reversed-append before (r ∷ []))
            ∙ take-cons n r (reversed before) (records_of calls)
                (λ m e. (get_recent-calls calls m (omega (arith, h, e))).0),
        window-length (before ++ r ∷ []),
        refl,
      )

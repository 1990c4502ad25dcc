-- ===== src/Base/Text/Laws.antt =====
-- Laws of the text functions: prefixes, and what `rstrip` takes away.
use Prim.Native.Nat.{ℕ}
use mathlib.Core.Path.{◌≡◌, refl, ap}
use mathlib.Core.Logic.{◌⊎◌, inl, inr}
use mathlib.Core.Bool.{Bool, true, false, ◌&&◌}
use mathlib.Core.List.{[], ◌∷◌, ◌++◌}
use native.Mathlib.Omega.{arith}
use agentic_loop_template.Base.Tests.{◌==◌, Bool-cases}
use agentic_loop_template.Base.Lists.{All}
use agentic_loop_template.Base.Text.{Text, is_empty, starts_with, ends_with_char, rstrip_by}

pub starts_with_append : (p u : Text) → starts_with (p ++ u) p ≡ true
unfolding starts_with
starts_with_append [] u = refl
starts_with_append (c ∷ p) u = ground (arith, starts_with_append p u)

pub starts_with_rest : (s p : Text) → starts_with s p ≡ true → (u : Text) × (s ≡ p ++ u)
unfolding starts_with
starts_with_rest s [] h = (s, refl)
starts_with_rest [] (c ∷ p) h = cc
starts_with_rest (d ∷ s) (c ∷ p) h =
    let (u, e) = starts_with_rest s p (ground arith) in (u, ground arith)

-- Two ways to write one text with the same mark: the parts before it are equal, or one is longer.
pub append_mark_compare :
    (m : ℕ) (xs ys us vs : Text)
    → xs ++ m ∷ us ≡ ys ++ m ∷ vs
    → (xs ≡ ys) ⊎ ((w : Text) × (ys ≡ xs ++ m ∷ w)) ⊎ ((w : Text) × (xs ≡ ys ++ m ∷ w))
append_mark_compare m [] [] us vs e = inl refl
append_mark_compare m [] (y ∷ ys) us vs e = inr (inl (ys, cc))
append_mark_compare m (x ∷ xs) [] us vs e = inr (inr (xs, cc))
append_mark_compare m (x ∷ xs) (y ∷ ys) us vs e = elim (append_mark_compare m xs ys us vs (cc)) [
  | inl same ↦ inl (cc)
  | inr (inl (w, p)) ↦ inr (inl (w, cc))
  | inr (inr (w, p)) ↦ inr (inr (w, cc))
]

not_empty_append : (x : Text) (d : ℕ) (w : Text) → is_empty (x ++ d ∷ w) ≡ false
not_empty_append [] d w = refl
not_empty_append (c ∷ x) d w = refl

module _ (p : ℕ → Bool) where
  -- What `rstrip` removes is a run of characters that pass the test.
  pub rstrip_rest : (s : Text) → (k : Text) × All (λ c. p c ≡ true) k × (s ≡ rstrip_by p s ++ k)
  unfolding rstrip_by
  rstrip_rest [] = ([], tt, refl)
  rstrip_rest (c ∷ s) =
      let (k, all, e) = rstrip_rest s in
      elim (Bool-cases (p c && is_empty (rstrip_by p s))) [
        | inl gone ↦ rw gone (c ∷ k, (ground arith, all), ground arith)
        | inr kept ↦ rw kept (k, all, ap (λ t. c ∷ t) e)
      ]

  pub rstrip-append_gone : (x y : Text) → rstrip_by p y ≡ [] → rstrip_by p (x ++ y) ≡ rstrip_by p x
  unfolding rstrip_by
  rstrip-append_gone [] y h = h
  rstrip-append_gone (c ∷ x) y h = rw (rstrip-append_gone x y h)

  pub rstrip-append_kept :
      (x y : Text) {d : ℕ} {w : Text} → rstrip_by p y ≡ d ∷ w → rstrip_by p (x ++ y) ≡ x ++ d ∷ w
  unfolding rstrip_by
  rstrip-append_kept [] y h = h
  rstrip-append_kept (c ∷ x) y {d} {w} h =
      rw (rstrip-append_kept x y h) (ground (arith, not_empty_append x d w))

  pub rstrip_idem : (s : Text) → rstrip_by p (rstrip_by p s) ≡ rstrip_by p s
  unfolding rstrip_by
  rstrip_idem [] = refl
  rstrip_idem (c ∷ s) = ground (arith, rstrip_idem s)

-- Nothing is removed from a text that does not end with the character.
pub rstrip_no_end : (m : ℕ) (s : Text) → ends_with_char m s ≡ false → rstrip_by (λ c. c == m) s ≡ s
unfolding rstrip_by ends_with_char
rstrip_no_end m [] h = refl
rstrip_no_end m (c ∷ []) h = ground arith
rstrip_no_end m (c ∷ d ∷ s) h = ground (arith, rstrip_no_end m (d ∷ s) h)

-- A text that ends with the character is the stripped text, the character and more of it.
pub rstrip_end :
    (m : ℕ) (s : Text)
    → ends_with_char m s ≡ true
    → (k : Text) × All (λ c. (c == m) ≡ true) k × (s ≡ rstrip_by (λ c. c == m) s ++ m ∷ k)
unfolding rstrip_by ends_with_char
rstrip_end m [] h = cc
rstrip_end m (c ∷ []) h = ([], tt, ground arith)
rstrip_end m (c ∷ d ∷ s) h =
    let (k, all, e) = rstrip_end m (d ∷ s) h in
    elim (Bool-cases (c == m && is_empty (rstrip_by (λ c'. c' == m) (d ∷ s)))) [
      | inl gone ↦ rw gone (m ∷ k, (ground arith, all), ground arith)
      | inr kept ↦ rw kept (k, all, ap (λ t. c ∷ t) e)
    ]

pub ends_with-append : (m : ℕ) (s : Text) → ends_with_char m (s ++ m ∷ []) ≡ true
unfolding ends_with_char
ends_with-append m [] = ground arith
ends_with-append m (c ∷ []) = ends_with-append m []
ends_with-append m (c ∷ d ∷ s) = ends_with-append m (d ∷ s)

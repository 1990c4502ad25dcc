-- ===== src/Base/Text/Strip.antt =====
-- `strip` is idempotent, also after a change of characters that keeps what counts as a space.
use Prim.Native.Nat.{ℕ}
use mathlib.Core.Path.{◌≡◌, refl, ap, ◌∙◌}
use mathlib.Core.Bool.{Bool, true, false}
use mathlib.Core.List.{[], ◌∷◌, map}
use native.Mathlib.Omega.{arith}
use agentic_loop_template.Base.Text.{Text, is_empty, is_space, lstrip_by, rstrip_by, strip}
use agentic_loop_template.Base.Text.Laws.{rstrip_idem}

pub is_empty-map : (f : ℕ → ℕ) (s : Text) → is_empty (map f s) ≡ is_empty s
is_empty-map f [] = refl
is_empty-map f (c ∷ s) = refl

module _ (p : ℕ → Bool) where
  -- Nothing at the left end passes the test.
  lstrip_done : Text → Bool
  lstrip_done [] = true
  lstrip_done (c ∷ s) = elim (p c) [ true ↦ false | false ↦ true ]

  lstrip-done : (s : Text) → lstrip_done (lstrip_by p s) ≡ true
  unfolding lstrip_done lstrip_by
  lstrip-done [] = refl
  lstrip-done (c ∷ s) = ground (arith, lstrip-done s)

  lstrip_of_done : (s : Text) → lstrip_done s ≡ true → lstrip_by p s ≡ s
  unfolding lstrip_done lstrip_by
  lstrip_of_done [] h = refl
  lstrip_of_done (c ∷ s) h = ground arith

  rstrip-done : (s : Text) → lstrip_done s ≡ true → lstrip_done (rstrip_by p s) ≡ true
  unfolding lstrip_done rstrip_by
  rstrip-done [] h = refl
  rstrip-done (c ∷ s) h = ground arith

  module _ (f : ℕ → ℕ) (same : (c : ℕ) → p (f c) ≡ p c) where
    lstrip-map : (s : Text) → lstrip_by p (map f s) ≡ map f (lstrip_by p s)
    unfolding lstrip_by
    lstrip-map [] = refl
    lstrip-map (c ∷ s) = ground (arith, same c, lstrip-map s)

    rstrip-map : (s : Text) → rstrip_by p (map f s) ≡ map f (rstrip_by p s)
    unfolding rstrip_by
    rstrip-map [] = refl
    rstrip-map (c ∷ s) = ground (arith, same c, rstrip-map s, is_empty-map f (rstrip_by p s))

pub strip_idem : (s : Text) → strip (strip s) ≡ strip s
unfolding strip
strip_idem s =
    let l = lstrip_by is_space s in
    ap (rstrip_by is_space) (
      lstrip_of_done is_space (rstrip_by is_space l)
        (rstrip-done is_space l (lstrip-done is_space s)))
    ∙ rstrip_idem is_space l

pub strip-map :
    (f : ℕ → ℕ)
    → ((c : ℕ) → is_space (f c) ≡ is_space c)
    → (s : Text) → strip (map f s) ≡ map f (strip s)
unfolding strip
strip-map f same s =
    ap (rstrip_by is_space) (lstrip-map is_space f same s)
    ∙ rstrip-map is_space f same (lstrip_by is_space s)

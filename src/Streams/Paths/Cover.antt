-- ===== src/Streams/Paths/Cover.antt =====
-- memory/streams.py: what `_owned_covers` says of the files that two tokens own.
use mathlib.Core.List.{append_assoc}
use agentic_loop_template.Base.{
  ℕ, ◌≡◌, ◌≢◌, ◌↔◌, length, length-append, refl, sym, ap, ◌∙◌, subst, ◌⊎◌, inl, inr, true, false,
  ◌||◌, [], ◌∷◌, ◌++◌, arith, Bool-cases, or_true, and_true, ◌&&◌, Option, some, none,
}
use agentic_loop_template.Base.Text.{
  Text, is_empty, text_eq, text_eq_iff, ends_with_char, rstrip_by,
}
use agentic_loop_template.Base.Text.Laws.{
  ends_with-append, starts_with_rest, append_mark_compare, rstrip_no_end, rstrip_end, rstrip_idem,
  rstrip_rest, rstrip-append_gone, rstrip-append_kept,
}
use agentic_loop_template.Streams.Paths.{
  slash, is_slash, path_suffix, dir_form, dir_covers, token_covers, token_owns,
}
use agentic_loop_template.Streams.Paths.Reach.{
  is_dir, base_of, Below, Below-starts_with, Reaches, token_owns_sound, token_owns_complete,
}

base_of_idem : (own : Text) → base_of (base_of own) ≡ base_of own
base_of_idem own = rstrip_idem is_slash own

-- A path that lies below a base still does, or is the base, without its trailing slashes.
base_of-Below :
    (base own : Text)
    → base_of base ≡ base
    → Below base own
    → (base_of own ≡ base) ⊎ Below base (base_of own)
base_of-Below base own whole (t, e) = go (base_of (slash ∷ t)) refl
  where
    go : (r : Text) → base_of (slash ∷ t) ≡ r → (base_of own ≡ base) ⊎ Below base (base_of own)
    go [] r = inl (ap base_of e ∙ rstrip-append_gone is_slash base (slash ∷ t) r ∙ whole)
    go (d ∷ w) r =
        let (k, _, split) = rstrip_rest is_slash (slash ∷ t) in
        let same : d ≡ slash = cc (split, r) in
        inr (
          w,
          ap base_of e
              ∙ rstrip-append_kept is_slash base (slash ∷ t) r
              ∙ ap (λ c. base ++ c ∷ w) same,
        )

Below-trans : (base mid rel : Text) → Below base mid → Below mid rel → Below base rel
Below-trans base mid rel (t, e) (u, d) =
    (t ++ slash ∷ u, d ∙ ap (λ m. m ++ slash ∷ u) e ∙ append_assoc base (slash ∷ t) (slash ∷ u))

-- At most one trailing slash.
abbrev pub IsTidy : Text → Type 0
IsTidy own = (own ≡ base_of own) ⊎ (own ≡ base_of own ++ slash ∷ [])

-- One token lies within another: they are equal, or it is the directory or lies below it.
abbrev pub Within : Text → Text → Type 0
Within b a = (a ≡ b) ⊎ ((is_dir a ≡ true) × ((b ≡ base_of a) ⊎ Below (base_of a) b))

dir_form-some :
    (a a_dir : Text)
    → dir_form a ≡ some a_dir
    → (k : Text) × (is_dir a ≡ true)
      × (a_dir ≡ base_of a ++ slash ∷ k)
      × (base_of a_dir ≡ base_of a)
unfolding dir_form rstrip_by
dir_form-some a a_dir h = elim (Bool-cases (ends_with_char slash a)) [
  | inl d ↦
      let (k, _, e) = rstrip_end slash a d in
      let same : a ≡ a_dir = ground arith in (k, ground arith, sym same ∙ e, ap base_of (sym same))
  | inr plain ↦
      let same = rstrip_no_end slash a plain in
      let e : a ++ slash ∷ [] ≡ a_dir = ground arith in
      (
        [],
        ground arith,
        sym e ∙ ap (λ t. t ++ slash ∷ []) (sym same),
        ap base_of (sym e) ∙ rstrip-append_gone is_slash a (slash ∷ []) refl,
      )
]

dir_covers_sound :
    (a b : Text) (form : Option Text)
    → dir_form a ≡ form
    → dir_covers form b ≡ true
    → (is_dir a ≡ true) × ((b ≡ base_of a) ⊎ Below (base_of a) b)
unfolding dir_covers
dir_covers_sound a b none e h = cc
dir_covers_sound a b (some a_dir) e h =
    let (k, dir, shape, base) = dir_form-some a a_dir e in
    elim (or_true (text_eq b (base_of a_dir)) _ h) [
      | inl same ↦ (dir, inl ((text_eq_iff b (base_of a_dir)).0 same ∙ base))
      | inr pre ↦
          let (u, split) = starts_with_rest b a_dir pre in
          (
            dir,
            inr (k ++ u, split ∙ ap (λ t. t ++ u) shape ∙ append_assoc (base_of a) (slash ∷ k) u),
          )
    ]

-- The test finds only tokens that lie within the first one.
pub token_covers_sound : (a b : Text) → token_covers a b ≡ true → Within b a
unfolding token_covers
token_covers_sound a b h = elim (Bool-cases (text_eq a b)) [
  | inl same ↦ inl ((text_eq_iff a b).0 same)
  | inr differ ↦ inr (dir_covers_sound a b (dir_form a) refl (rw differ at h))
]

no_longer : (s : Text) (c : ℕ) (k : Text) → s ≢ s ++ c ∷ k
no_longer s c k e = omega (arith, ap length e, length-append s (c ∷ k))

dir_form-tidy :
    (a : Text) → IsTidy a → is_dir a ≡ true → dir_form a ≡ some (base_of a ++ slash ∷ [])
unfolding dir_form
dir_form-tidy a tidy dir = elim (Bool-cases (ends_with_char slash a)) [
  | inl d ↦
      let (k, _, e) = rstrip_end slash a d in
      elim tidy [
        | inl bare ↦ absurd (no_longer (base_of a) slash k (sym bare ∙ e))
        | inr one ↦ rw d (ap some one)
      ]
  | inr plain ↦
      let no_suffix : is_empty (path_suffix a) ≡ true = ground arith in
      rw (plain, no_suffix) (ap (λ t. some (t ++ slash ∷ [])) (sym (rstrip_no_end slash a plain)))
]

dir_covers_complete :
    (a b : Text)
    → (b ≡ base_of a) ⊎ Below (base_of a) b
    → dir_covers (some (base_of a ++ slash ∷ [])) b ≡ true
unfolding dir_covers rstrip_by
dir_covers_complete a b (inl same) =
    let base : base_of (base_of a ++ slash ∷ []) ≡ base_of a =
      rstrip-append_gone is_slash (base_of a) (slash ∷ []) refl ∙ base_of_idem a in
    ground (arith, text_eq_iff b (base_of (base_of a ++ slash ∷ [])))
dir_covers_complete a b (inr below) = ground (arith, Below-starts_with (base_of a) b below)

-- For a token with at most one trailing slash the test finds all that lies within it.
pub token_covers_complete : (a b : Text) → IsTidy a → Within b a → token_covers a b ≡ true
unfolding token_covers
token_covers_complete a b tidy (inl same) = rw ((text_eq_iff a b).1 same)
token_covers_complete a b tidy (inr (dir, w)) =
    rw (dir_form-tidy a tidy dir, dir_covers_complete a b w) (ground arith)

-- A normalised token with at most one trailing slash covers exactly the tokens that lie within it.
pub token_covers_iff : (a b : Text) → IsTidy a → (token_covers a b ≡ true) ↔ Within b a
token_covers_iff a b tidy = (token_covers_sound a b, token_covers_complete a b tidy)

-- A token that lies within another reaches no file that the other does not.
Reaches-Within : (a b rel : Text) → Within b a → Reaches b rel → Reaches a rel
Reaches-Within a b rel (inl same) r = subst (λ t. Reaches t rel) (sym same) r
Reaches-Within a b rel (inr (dir, w)) r = elim (base_within w) [
  | inl same ↦ elim r [
    | inl e ↦ inl (e ∙ same)
    | inr (_, below) ↦ inr (dir, subst (λ t. Below t rel) same below)
  ]
  | inr inside ↦ elim r [
    | inl e ↦ inr (dir, (inside.0, e ∙ inside.1))
    | inr (_, below) ↦ inr (dir, Below-trans (base_of a) (base_of b) rel inside below)
  ]
]
  where
    base_within :
        (b ≡ base_of a) ⊎ Below (base_of a) b
        → (base_of b ≡ base_of a) ⊎ Below (base_of a) (base_of b)
    base_within (inl same) = inl (ap base_of same ∙ base_of_idem a)
    base_within (inr below) = base_of-Below (base_of a) b (base_of_idem a) below

-- What the covered token owns, the covering one owns.
pub token_covers-owns :
    (a b rel : Text) → token_covers a b ≡ true → token_owns rel b ≡ true → token_owns rel a ≡ true
token_covers-owns a b rel c o =
    token_owns_complete a rel
      (Reaches-Within a b rel (token_covers_sound a b c) (token_owns_sound b rel o))

slashed-is_dir : (a : Text) → a ≡ base_of a ++ slash ∷ [] → is_dir a ≡ true
slashed-is_dir a e =
    let ends : ends_with_char slash a ≡ true =
      subst (λ t. ends_with_char slash t ≡ true) (sym e) (ends_with-append slash (base_of a)) in
    ground arith

-- Tidy tokens with one base lie one within the other.
same_base-Within :
    (a b : Text) → IsTidy a → IsTidy b → base_of a ≡ base_of b → Within b a ⊎ Within a b
same_base-Within a b (inl p) (inl q) e = inl (inl (p ∙ e ∙ sym q))
same_base-Within a b (inr p) (inr q) e = inl (inl (p ∙ ap (λ t. t ++ slash ∷ []) e ∙ sym q))
same_base-Within a b (inl p) (inr q) e = inr (inr (slashed-is_dir b q, inl (p ∙ e)))
same_base-Within a b (inr p) (inl q) e = inl (inr (slashed-is_dir a p, inl (q ∙ sym e)))

-- A token lies below what its base lies below.
Below-base : (base own : Text) → IsTidy own → Below base (base_of own) → Below base own
Below-base base own (inl p) (u, e) = (u, p ∙ e)
Below-base base own (inr p) (u, e) =
    (u ++ slash ∷ [], p ∙ ap (λ t. t ++ slash ∷ []) e ∙ append_assoc base (slash ∷ u) (slash ∷ []))

-- Of two tidy tokens that reach one file, one lies within the other.
reached_by_both :
    (a b rel : Text) → IsTidy a → IsTidy b → Reaches a rel → Reaches b rel → Within b a ⊎ Within a b
reached_by_both a b rel ta tb (inl p) (inl q) = same_base-Within a b ta tb (sym p ∙ q)
reached_by_both a b rel ta tb (inl p) (inr (dir, (u, q))) =
    inr (inr (dir, inr (Below-base (base_of b) a ta (u, sym p ∙ q))))
reached_by_both a b rel ta tb (inr (dir, (u, p))) (inl q) =
    inl (inr (dir, inr (Below-base (base_of a) b tb (u, sym q ∙ p))))
reached_by_both a b rel ta tb (inr (da, (u, p))) (inr (db, (v, q))) =
    elim (append_mark_compare slash (base_of a) (base_of b) u v (sym p ∙ q)) [
      | inl same ↦ same_base-Within a b ta tb same
      | inr (inl longer) ↦ inl (inr (da, inr (Below-base (base_of a) b tb longer)))
      | inr (inr longer) ↦ inr (inr (db, inr (Below-base (base_of b) a ta longer)))
    ]

-- Two tidy tokens of which neither covers the other own no file together.
pub uncovered_disjoint :
    (a b rel : Text)
    → IsTidy a
    → IsTidy b
    → (token_covers a b || token_covers b a) ≡ false
    → (token_owns rel a && token_owns rel b) ≡ false
uncovered_disjoint a b rel ta tb apart = elim (Bool-cases (token_owns rel a && token_owns rel b)) [
  | inr not_both ↦ not_both
  | inl both ↦
      let (oa, ob) = and_true _ _ both in
      elim (reached_by_both a b rel ta tb (token_owns_sound a rel oa) (token_owns_sound b rel ob)) [
        | inl w ↦ ground (arith, token_covers_complete a b ta w)
        | inr w ↦ ground (arith, token_covers_complete b a tb w)
      ]
]

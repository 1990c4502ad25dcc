-- ===== src/Streams/Paths/Reach.antt =====
-- memory/streams.py: the files that one normalised token owns, described without the string tests.
use agentic_loop_template.Base.{
  ◌≡◌, ◌↔◌, refl, ap, ◌∙◌, ◌⊎◌, inl, inr, Bool, true, ◌||◌, [], ◌∷◌, ◌++◌, arith, Bool-cases,
  or_true, and_true, sym, ◌&&◌,
}
use mathlib.Core.List.{append_assoc}
use agentic_loop_template.Base.Text.{
  Text, is_empty, text_eq, text_eq_iff, starts_with, ends_with_char, rstrip_by,
}
use agentic_loop_template.Base.Text.Laws.{
  starts_with_append, starts_with_rest, rstrip_no_end, rstrip_end,
}
use agentic_loop_template.Streams.Paths.{slash, is_slash, path_suffix, token_owns}

-- A token names a directory, unless it is a file name: a file extension and no trailing slash.
abbrev pub is_dir : Text → Bool
is_dir own = ends_with_char slash own || is_empty (path_suffix own)

-- The token without its trailing slashes.
abbrev pub base_of : Text → Text
base_of own = rstrip_by is_slash own

-- `rel` lies below the directory `base`.
abbrev pub Below : Text → Text → Type 0
Below base rel = (u : Text) × (rel ≡ base ++ slash ∷ u)

-- The path itself, and for a directory all that lies below it.
abbrev pub Reaches : Text → Text → Type 0
Reaches own rel = (rel ≡ base_of own) ⊎ ((is_dir own ≡ true) × Below (base_of own) rel)

pub starts_with-Below :
    (base rel : Text) → starts_with rel (base ++ slash ∷ []) ≡ true → Below base rel
starts_with-Below base rel h =
    let (u, e) = starts_with_rest rel (base ++ slash ∷ []) h in
    (u, e ∙ append_assoc base (slash ∷ []) u)

pub Below-starts_with :
    (base rel : Text) → Below base rel → starts_with rel (base ++ slash ∷ []) ≡ true
Below-starts_with base rel (u, e) =
    rw (e, ← append_assoc base (slash ∷ []) u) (starts_with_append (base ++ slash ∷ []) u)

-- A text that starts with a token that ends with "/" lies below its base.
starts_with_dir :
    (own rel : Text)
    → ends_with_char slash own ≡ true
    → starts_with rel own ≡ true
    → Below (base_of own) rel
starts_with_dir own rel h s =
    let (u, e) = starts_with_rest rel own s in
    let (k, _, d) = rstrip_end slash own h in
    (k ++ u, e ∙ ap (λ t. t ++ u) d ∙ append_assoc (base_of own) (slash ∷ k) u)

-- The two forms of the test.
module _ (own rel : Text) where
  owns_dir_sound :
      ends_with_char slash own ≡ true
      → (text_eq rel (base_of own)
          || starts_with rel own
          || starts_with rel (base_of own ++ slash ∷ []))
        ≡ true
      → (rel ≡ base_of own) ⊎ Below (base_of own) rel
  owns_dir_sound d h = elim (or_true _ (starts_with rel (base_of own ++ slash ∷ [])) h) [
    | inl p ↦ elim (or_true _ (starts_with rel own) p) [
      | inl same ↦ inl ((text_eq_iff rel (base_of own)).0 same)
      | inr pre ↦ inr (starts_with_dir own rel d pre)
    ]
    | inr below ↦ inr (starts_with-Below (base_of own) rel below)
  ]

  owns_plain_sound :
      (text_eq rel own || is_empty (path_suffix own) && starts_with rel (own ++ slash ∷ [])) ≡ true
      → (rel ≡ own) ⊎ ((is_empty (path_suffix own) ≡ true) × Below own rel)
  owns_plain_sound h =
      elim (or_true _ (is_empty (path_suffix own) && starts_with rel (own ++ slash ∷ [])) h) [
        | inl same ↦ inl ((text_eq_iff rel own).0 same)
        | inr p ↦
            let (no_suffix, below) = and_true _ _ p in
            inr (no_suffix, starts_with-Below own rel below)
      ]

  -- The test finds only paths that the token reaches.
  pub token_owns_sound : token_owns rel own ≡ true → Reaches own rel
  unfolding token_owns
  token_owns_sound h = elim (Bool-cases (ends_with_char slash own)) [
    | inl d ↦ elim (owns_dir_sound d (ground arith)) [
      | inl same ↦ inl same
      | inr below ↦ inr (rw d refl, below)
    ]
    | inr plain ↦
        let same_base = rstrip_no_end slash own plain in
        elim (owns_plain_sound (ground arith)) [
          | inl same ↦ inl (same ∙ sym same_base)
          | inr below ↦ inr (rw plain below.0, rw same_base below.1)
        ]
  ]

  -- The test finds every path that the token reaches.
  pub token_owns_complete : Reaches own rel → token_owns rel own ≡ true
  unfolding token_owns
  token_owns_complete (inl same) = elim (Bool-cases (ends_with_char slash own)) [
    | inl d ↦ ground (arith, text_eq_iff rel (base_of own))
    | inr plain ↦ ground (arith, rstrip_no_end slash own plain, text_eq_iff rel own)
  ]
  token_owns_complete (inr (dir, below)) = elim (Bool-cases (ends_with_char slash own)) [
    | inl d ↦ ground (arith, Below-starts_with (base_of own) rel below)
    | inr plain ↦
        let under : starts_with rel (own ++ slash ∷ []) ≡ true =
          Below-starts_with own rel (rw (rstrip_no_end slash own plain) at below) in
        ground arith
  ]

-- A normalised token owns exactly its base, and, if it names a directory, what lies below the base.
pub token_owns_iff : (own rel : Text) → (token_owns rel own ≡ true) ↔ Reaches own rel
token_owns_iff own rel = (token_owns_sound own rel, token_owns_complete own rel)

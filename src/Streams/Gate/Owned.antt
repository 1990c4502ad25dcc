-- ===== src/Streams/Gate/Owned.antt =====
-- memory/streams.py: exactly which changed files the owned-paths gate reports.
use agentic_loop_template.Base.{
  ◌≡◌, ◌↔◌, refl, sym, ap, ◌∙◌, subst, inl, inr, Bool, true, false, List, [], ◌∷◌, arith, In,
  Bool-cases, Result, ok, >>=-eq-ok,
}
use agentic_loop_template.Base.Text.{Text}
use agentic_loop_template.Errors.{ValueError}
use agentic_loop_template.Streams.Paths.{norm_rel, path_is_owned}
use agentic_loop_template.Streams.Gate.{is_skipped, files_outside_owned}

-- A changed file that the gate counts, under its normalised path, and that no token owns.
pub record Violates (changed : List Text) (owned_paths : List Text) (rel : Text) : Type 0 where
  pub file : Text
  pub was_changed : In file changed
  pub is_its_path : norm_rel file ≡ rel
  pub counted : is_skipped rel ≡ false
  pub unowned : path_is_owned rel owned_paths ≡ ok false

Violates-later :
    (f : Text) (changed owned_paths : List Text) (rel : Text)
    → Violates changed owned_paths rel
    → Violates (f ∷ changed) owned_paths rel
Violates-later f changed owned_paths rel v = record {
  file = v.file;
  was_changed = inr v.was_changed;
  is_its_path = v.is_its_path;
  counted = v.counted;
  unowned = v.unowned;
}

-- One round of the loop that returned: skipped, or tested together with the rest.
data Round (f : Text) (changed owned_paths out : List Text) : Type 0 where
  skipped :
      is_skipped (norm_rel f) ≡ true
      → files_outside_owned changed owned_paths ≡ ok out
      → Round f changed owned_paths out
  inside :
      is_skipped (norm_rel f) ≡ false
      → path_is_owned (norm_rel f) owned_paths ≡ ok true
      → files_outside_owned changed owned_paths ≡ ok out
      → Round f changed owned_paths out
  outside :
      (rest : List Text)
      → is_skipped (norm_rel f) ≡ false
      → path_is_owned (norm_rel f) owned_paths ≡ ok false
      → files_outside_owned changed owned_paths ≡ ok rest
      → out ≡ norm_rel f ∷ rest
      → Round f changed owned_paths out

files_outside-Round :
    (f : Text) (changed owned_paths out : List Text)
    → files_outside_owned (f ∷ changed) owned_paths ≡ ok out
    → Round f changed owned_paths out
unfolding files_outside_owned
files_outside-Round f changed owned_paths out h = elim (Bool-cases (is_skipped (norm_rel f))) [
  | inl skip ↦ skipped skip (rw skip at h)
  | inr count ↦
      let (owned, eo, h') = >>=-eq-ok (path_is_owned (norm_rel f) owned_paths) _ (rw count at h) in
      let (rest, er, h'') = >>=-eq-ok (files_outside_owned changed owned_paths) _ h' in
      elim (Bool-cases owned) [
        | inl o ↦ inside count (rw o at eo) (ground arith)
        | inr o ↦ outside rest count (rw o at eo) er (ground arith)
      ]
]

files_outside-nil :
    (owned_paths out : List Text) → files_outside_owned [] owned_paths ≡ ok out → out ≡ []
unfolding files_outside_owned
files_outside-nil owned_paths out h = ground arith

-- Only violations are reported.
files_outside_sound :
    (changed owned_paths out : List Text)
    → files_outside_owned changed owned_paths ≡ ok out
    → (rel : Text) → In rel out
    → Violates changed owned_paths rel
files_outside_sound [] owned_paths out h rel m =
    absurd (subst (In rel) (files_outside-nil owned_paths out h) m)
files_outside_sound (f ∷ changed) owned_paths out h rel m =
    elim (files_outside-Round f changed owned_paths out h) [
      | skipped _ er ↦
          Violates-later f changed owned_paths rel
            (files_outside_sound changed owned_paths out er rel m)
      | inside _ _ er ↦
          Violates-later f changed owned_paths rel
            (files_outside_sound changed owned_paths out er rel m)
      | outside rest count eo er eq ↦ elim (subst (In rel) eq m) [
        | inl here ↦ record {
          file = f;
          was_changed = inl refl;
          is_its_path = sym here;
          counted = rw here count;
          unowned = rw here eo;
        }
        | inr there ↦
            Violates-later f changed owned_paths rel
              (files_outside_sound changed owned_paths rest er rel there)
      ]
    ]

-- Every violation is reported.
files_outside_complete :
    (changed owned_paths out : List Text)
    → files_outside_owned changed owned_paths ≡ ok out
    → (rel file : Text) → In file changed
    → norm_rel file ≡ rel
    → is_skipped rel ≡ false
    → path_is_owned rel owned_paths ≡ ok false
    → In rel out
files_outside_complete [] owned_paths out h rel file m e count un = elim m [ ]
files_outside_complete (f ∷ changed) owned_paths out h rel file (inl here) e count un =
    let same : norm_rel f ≡ rel = ap norm_rel (sym here) ∙ e in
    elim (files_outside-Round f changed owned_paths out h) [
      | skipped skip er ↦ absurd (differ (sym (rw same at skip) ∙ count))
      | inside _ eo er ↦ absurd (owned_or_not (sym (rw same at eo) ∙ un))
      | outside rest _ _ er eq ↦ subst (In rel) (sym eq) (inl (sym same))
    ]
  where
    differ : true ≡ false → ⊥
    differ x = cc

    owned_or_not : ◌≡◌ {A = Result ValueError Bool} (ok true) (ok false) → ⊥
    owned_or_not x = cc
files_outside_complete (f ∷ changed) owned_paths out h rel file (inr there) e count un =
    elim (files_outside-Round f changed owned_paths out h) [
      | skipped skip er ↦
          files_outside_complete changed owned_paths out er rel file there e count un
      | inside _ eo er ↦ files_outside_complete changed owned_paths out er rel file there e count un
      | outside rest _ _ er eq ↦
          subst (In rel) (sym eq)
            (inr (files_outside_complete changed owned_paths rest er rel file there e count un))
    ]

-- When the gate returns, it reports a path exactly if a changed file has that normalised path, the
-- path is neither empty nor ".", and no token owns it.
pub files_outside_exact :
    (changed owned_paths out : List Text) (rel : Text)
    → files_outside_owned changed owned_paths ≡ ok out
    → In rel out ↔ Violates changed owned_paths rel
files_outside_exact changed owned_paths out rel h = (
  files_outside_sound changed owned_paths out h rel,
  λ v.
      files_outside_complete changed owned_paths out h rel v.file v.was_changed v.is_its_path
        v.counted v.unowned,
)

-- Where the gate reports nothing, every counted file is owned.
pub gate_passed :
    (changed owned_paths : List Text)
    → files_outside_owned changed owned_paths ≡ ok []
    → (file : Text) → In file changed
    → is_skipped (norm_rel file) ≡ false
    → path_is_owned (norm_rel file) owned_paths ≡ ok true
gate_passed [] owned_paths h file m count = elim m [ ]
gate_passed (f ∷ changed) owned_paths h file (inl here) count =
    elim (files_outside-Round f changed owned_paths [] h) [
      | skipped skip er ↦
          let skip_file : is_skipped (norm_rel file) ≡ true = rw here skip in cc (skip_file, count)
      | inside _ eo er ↦ rw here eo
      | outside rest _ _ er eq ↦ cc eq
    ]
gate_passed (f ∷ changed) owned_paths h file (inr there) count =
    elim (files_outside-Round f changed owned_paths [] h) [
      | skipped skip er ↦ gate_passed changed owned_paths er file there count
      | inside _ eo er ↦ gate_passed changed owned_paths er file there count
      | outside rest _ _ er eq ↦ cc eq
    ]

-- ===== src/StreamGit/Names.antt =====
-- memory/stream_git.py: the directory name that a branch gets.
use agentic_loop_template.Base.{
  ℕ, Bool, true, false, ◌&&◌, ◌||◌, [], ◌∷◌, if◌then◌else◌, ◌==◌, ◌≡◌, ◌≢◌, refl, inl, inr, All,
  Bool-cases, arith,
}
use agentic_loop_template.Base.Text.{
  Text, text, is_empty, text_eq, text_eq_iff, lstrip_by, rstrip_by, starts_with,
}
use agentic_loop_template.StreamGit.Branches.{
  is_safe_char, replace_unsafe, squeeze_dashes, strip_dashes, sanitize_branch,
}

abbrev AllSafe : Text → Type 0
AllSafe s = All (λ c. is_safe_char c ≡ true) s

-- One component of a path, below the directory that it is joined to.
pub record IsPathName (s : Text) : Type 0 where
  pub safe : AllSafe s
  pub not_empty : s ≢ []
  pub not_here : s ≢ text "."
  pub not_parent : s ≢ text ".."

safe_or_dash : (c : ℕ) (b : Bool) → is_safe_char c ≡ b → is_safe_char (if b then c else b'-') ≡ true
unfolding is_safe_char
safe_or_dash c true e = e
safe_or_dash c false e = refl

replace-AllSafe : (s : Text) → AllSafe (replace_unsafe s)
unfolding replace_unsafe
replace-AllSafe [] = tt
replace-AllSafe (c ∷ s) = (safe_or_dash c (is_safe_char c) refl, replace-AllSafe s)

squeeze-AllSafe : (s : Text) → AllSafe s → AllSafe (squeeze_dashes s)
unfolding squeeze_dashes
squeeze-AllSafe [] h = tt
squeeze-AllSafe (c ∷ s) (hc, hs) = elim (Bool-cases (c == b'-' && starts_with s (b'-' ∷ []))) [
  | inl twice ↦ rw twice (squeeze-AllSafe s hs)
  | inr once ↦ rw once (hc, squeeze-AllSafe s hs)
]

lstrip-AllSafe : (p : ℕ → Bool) (s : Text) → AllSafe s → AllSafe (lstrip_by p s)
unfolding lstrip_by
lstrip-AllSafe p [] h = tt
lstrip-AllSafe p (c ∷ s) (hc, hs) = elim (Bool-cases (p c)) [
  | inl gone ↦ rw gone (lstrip-AllSafe p s hs)
  | inr kept ↦ rw kept (hc, hs)
]

rstrip-AllSafe : (p : ℕ → Bool) (s : Text) → AllSafe s → AllSafe (rstrip_by p s)
unfolding rstrip_by
rstrip-AllSafe p [] h = tt
rstrip-AllSafe p (c ∷ s) (hc, hs) = elim (Bool-cases (p c && is_empty (rstrip_by p s))) [
  | inl gone ↦ rw gone tt
  | inr kept ↦ rw kept (hc, rstrip-AllSafe p s hs)
]

cleaned-AllSafe : (s : Text) → AllSafe (strip_dashes (squeeze_dashes (replace_unsafe s)))
unfolding strip_dashes
cleaned-AllSafe s = rstrip-AllSafe _ _ (lstrip-AllSafe _ _ (squeeze-AllSafe _ (replace-AllSafe s)))

integration-IsPathName : IsPathName (text "integration")
unfolding is_safe_char
integration-IsPathName = record {
  safe = (refl, (refl, (refl, (refl, (refl, (refl, (refl, (refl, (refl, (refl, (refl, tt)))))))))));
  not_empty = λ e. cc e;
  not_here = λ e. cc e;
  not_parent = λ e. cc e;
}

-- The fallback is taken for the three names that leave the directory.
pick-IsPathName :
    (s : Text)
    → AllSafe s
    → IsPathName (
        if is_empty s || text_eq s (text ".") || text_eq s (text "..")
        then text "integration"
        else s)
pick-IsPathName s safe =
    elim (Bool-cases (is_empty s || text_eq s (text ".") || text_eq s (text ".."))) [
      | inl fallback ↦ rw fallback integration-IsPathName
      | inr kept ↦ rw kept (record {
        safe = safe;
        not_empty = λ e. cc (rw e at kept);
        not_here = λ e. let same = (text_eq_iff s (text ".")).1 e in ground arith;
        not_parent = λ e. let same = (text_eq_iff s (text "..")).1 e in ground arith;
      })
    ]

-- The directory name of a branch, whatever the branch is called, is made of safe characters only, without a
-- slash, and is not empty, "." or "..".
pub sanitize_branch-IsPathName : (name : Text) → IsPathName (sanitize_branch name)
unfolding sanitize_branch
sanitize_branch-IsPathName name =
    pick-IsPathName (strip_dashes (squeeze_dashes (replace_unsafe name))) (cleaned-AllSafe name)

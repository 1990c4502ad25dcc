-- ===== src/StreamStop/Roots.antt =====
-- memory/stream_stop.py: the directories that `_is_allowed` accepts.
use agentic_loop_template.Base.{
  true, false, List, [], ◌∷◌, In, ◌≡◌, refl, sym, subst, ◌≢◌, ◌⊎◌, inl, inr, Bool-cases, and_true,
}
use agentic_loop_template.Base.Text.{Text, text_eq, text_eq_iff}
use agentic_loop_template.StreamStop.{
  Disk, default_wt_base, extra_allowed, allowed_roots, under_any, is_fs_root, is_allowed, resolved,
}

module _ (disk : Disk) (hub : Text) (extra : List Text) where
  -- A directory that the program allows worktrees under: the hub, the worktrees' directory beside it, or a root of the
  -- configuration that is not the root of the file system.
  pub data IsAllowedRoot : Text → Type 0 where
    the_hub : IsAllowedRoot (resolved disk hub)
    beside_hub : IsAllowedRoot (default_wt_base disk (resolved disk hub))
    configured :
        (raw : Text)
        → In raw extra
        → is_fs_root disk (resolved disk (disk.expanduser raw)) ≡ false
        → IsAllowedRoot (resolved disk (disk.expanduser raw))

  -- An allowed place: such a directory or one under it, and not the root of the file system.
  pub record IsAllowedPath (p : Text) : Type 0 where
    pub root : Text
    pub allowed_root : IsAllowedRoot root
    pub below : (resolved disk p ≡ root) ⊎ (disk.is_relative_to (resolved disk p) root ≡ true)
    pub not_fs_root : resolved disk p ≢ disk.anchor (resolved disk p)

  extra_allowed-In :
      (raws : List Text) (root : Text)
      → In root (extra_allowed disk raws)
      → (raw : Text) × In raw raws
        × (root ≡ resolved disk (disk.expanduser raw))
        × (is_fs_root disk (resolved disk (disk.expanduser raw)) ≡ false)
  unfolding extra_allowed
  extra_allowed-In [] root m = elim m [ ]
  extra_allowed-In (raw ∷ raws) root m =
      elim (Bool-cases (is_fs_root disk (resolved disk (disk.expanduser raw)))) [
        | inl top ↦
            let (r, i, e, f) = extra_allowed-In raws root (rw (top, extra_allowed) at m) in
            (r, inr i, e, f)
        | inr fine ↦ elim (rw (fine, extra_allowed) at m) [
          | inl here ↦ (raw, inl refl, here, fine)
          | inr later ↦ let (r, i, e, f) = extra_allowed-In raws root later in (r, inr i, e, f)
        ]
      ]

  allowed_roots-In : (root : Text) → In root (allowed_roots disk hub extra) → IsAllowedRoot root
  unfolding allowed_roots
  allowed_roots-In root (inl here) = subst IsAllowedRoot (sym here) the_hub
  allowed_roots-In root (inr (inl here)) = subst IsAllowedRoot (sym here) beside_hub
  allowed_roots-In root (inr (inr later)) =
      let (raw, i, e, f) = extra_allowed-In extra root later in
      subst IsAllowedRoot (sym e) (configured raw i f)

  under_any-In :
      (p : Text) (roots : List Text)
      → under_any disk p roots ≡ true
      → (root : Text) × In root roots × ((p ≡ root) ⊎ (disk.is_relative_to p root ≡ true))
  unfolding under_any
  under_any-In p [] h = cc h
  under_any-In p (root ∷ roots) h = elim (Bool-cases (text_eq p root)) [
    | inl same ↦ (root, inl refl, inl ((text_eq_iff p root).0 same))
    | inr other ↦ elim (Bool-cases (disk.is_relative_to p root)) [
      | inl below ↦ (root, inl refl, inr below)
      | inr outside ↦
          let (r, i, e) = under_any-In p roots (rw (other, outside, under_any) at h) in
          (r, inr i, e)
    ]
  ]

  pub allowed-IsAllowedPath :
      (p : Text) → is_allowed disk hub extra p ≡ true → is_fs_root disk p ≡ false → IsAllowedPath p
  unfolding is_allowed is_fs_root
  allowed-IsAllowedPath p allowed inner =
      let (not_root, under) = and_true _ _ allowed in
      let (root, i, below) = under_any-In (resolved disk p) _ under in
      record {
        root = root;
        allowed_root = allowed_roots-In root i;
        below = below;
        not_fs_root = λ same. cc (inner, (text_eq_iff (resolved disk p) _).1 same);
      }

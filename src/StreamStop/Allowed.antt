-- ===== src/StreamStop/Allowed.antt =====
-- memory/stream_stop.py: where a STOP is written.
use agentic_loop_template.Base.{
  Bool, true, false, ◌&&◌, List, [], ◌∷◌, ◌++◌, Option, none, some, if◌then◌else◌, All, In, ◌≡◌,
  refl, sym, subst, ◌⊎◌, inl, inr, Bool-cases, arith, and_true,
}
use agentic_loop_template.Base.Text.{Text, text, is_empty, text_eq_iff, strip}
use agentic_loop_template.Json.{
  Json, null, boolean, integer, float, string, array, object, Items, nil, cons, Fields, end, field,
  get, contains,
}
use agentic_loop_template.StreamStop.{
  Disk, is_fs_root, is_allowed, raw_text, checked_path, resolved, normalize_worktree, worktree_in,
  add_path, item_paths, value_paths, container_paths, paths_under, file_paths, unseen,
  stream_worktrees_from_hub, write_stops, fanout_stop,
}
use agentic_loop_template.StreamStop.Roots.{IsAllowedPath, allowed-IsAllowedPath}

All-In : (P : Text → Type 0) (r : Text) (ps : List Text) → All P ps → In r ps → P r
All-In P r [] all none_left = elim none_left [ ]
All-In P r (p ∷ ps) (first, rest) (inl here) = subst P (sym here) first
All-In P r (p ∷ ps) (first, rest) (inr later) = All-In P r ps rest later

All-append : (P : Text → Type 0) (ps qs : List Text) → All P ps → All P qs → All P (ps ++ qs)
All-append P [] qs all more = more
All-append P (p ∷ ps) qs (first, rest) more = (first, All-append P ps qs rest more)

pub contains-In : (r : Text) (ps : List Text) → In r ps → contains r ps ≡ true
unfolding contains
contains-In r [] none_left = elim none_left [ ]
contains-In r (p ∷ ps) (inl here) = let same = (text_eq_iff p r).1 (sym here) in ground arith
contains-In r (p ∷ ps) (inr later) = let rest = contains-In r ps later in ground arith

unseen-All : (P : Text → Type 0) (seen ps : List Text) → All P ps → All P (unseen seen ps)
unfolding unseen
unseen-All P seen [] all = tt
unseen-All P seen (p ∷ ps) (first, rest) = elim (Bool-cases (contains p seen)) [
  | inl old ↦ rw old (unseen-All P seen ps rest)
  | inr new ↦ rw new (first, unseen-All P (p ∷ seen) ps rest)
]

write_stops-All :
    (P : Text → Type 0) (disk : Disk) (roots : List Text)
    → All P roots
    → All (λ r. P r × (disk.is_dir r ≡ true)) (write_stops disk roots)
unfolding write_stops
write_stops-All P disk [] all = tt
write_stops-All P disk (r ∷ roots) (first, rest) =
    elim (Bool-cases (disk.is_dir r && disk.write_stop r)) [
      | inl written ↦
          rw written
            ((first, (and_true (disk.is_dir r) _ written).0), write_stops-All P disk roots rest)
      | inr skipped ↦ rw skipped (write_stops-All P disk roots rest)
    ]

module _ (disk : Disk) (hub : Text) (extra : List Text) where
  abbrev IsAllowedHere : Text → Type 0
  IsAllowedHere = IsAllowedPath disk hub extra

  checked-IsAllowedPath : (s p : Text) → checked_path disk hub extra s ≡ some p → IsAllowedHere p
  unfolding checked_path
  checked-IsAllowedPath s p e =
      let given = disk.expanduser s in
      let q = resolved disk (if disk.is_absolute given then given else disk.join hub given) in
      by_tests (is_empty s) (is_fs_root disk q) (is_allowed disk hub extra q) q refl refl e
    where
      by_tests :
          (empty root allowed : Bool) (q : Text)
          → is_fs_root disk q ≡ root
          → is_allowed disk hub extra q ≡ allowed
          → (if empty then none else if root then none else if allowed then some q else none)
            ≡ some p
          → IsAllowedHere p
      by_tests true root allowed q r a h = cc h
      by_tests false true allowed q r a h = cc h
      by_tests false false true q r a h =
          let same : q ≡ p = cc h in
          subst IsAllowedHere same (allowed-IsAllowedPath disk hub extra q a r)
      by_tests false false false q r a h = cc h

  normalized-IsAllowedPath :
      (o : Option Text) (p : Text)
      → (elim o as (λ x. Option Text) [
        | none ↦ none
        | some s ↦ checked_path disk hub extra (strip s)
      ])
        ≡ some p
      → IsAllowedHere p
  normalized-IsAllowedPath none p e = cc e
  normalized-IsAllowedPath (some s) p e = checked-IsAllowedPath (strip s) p e

  worktree-IsAllowedPath :
      (v : Json) (p : Text) → worktree_in disk hub extra v ≡ some p → IsAllowedHere p
  unfolding worktree_in normalize_worktree
  worktree-IsAllowedPath (object fs) p e =
      normalized-IsAllowedPath (raw_text disk (get (text "worktree") fs)) p e
  worktree-IsAllowedPath v p e = cc e

  add_path-All :
      (o : Option Text) (rest : List Text)
      → ((p : Text) → o ≡ some p → IsAllowedHere p)
      → All IsAllowedHere rest
      → All IsAllowedHere (add_path disk hub extra o rest)
  unfolding add_path
  add_path-All none rest h all = all
  add_path-All (some p) rest h all = (h p refl, all)

  items-All : (vs : Items) → All IsAllowedHere (item_paths disk hub extra vs)
  unfolding item_paths
  items-All nil = tt
  items-All (cons v vs) =
      add_path-All (worktree_in disk hub extra v) _ (worktree-IsAllowedPath v) (items-All vs)

  values-All : (fs : Fields) → All IsAllowedHere (value_paths disk hub extra fs)
  unfolding value_paths
  values-All end = tt
  values-All (field k v fs) =
      add_path-All (worktree_in disk hub extra v) _ (worktree-IsAllowedPath v) (values-All fs)

  container-All : (v : Json) → All IsAllowedHere (container_paths disk hub extra v)
  unfolding container_paths
  container-All (object fs) = values-All fs
  container-All (array vs) = items-All vs
  container-All null = tt
  container-All (boolean b) = tt
  container-All (integer n) = tt
  container-All (float x) = tt
  container-All (string s) = tt

  paths_under-All :
      (key : Text) (o : Option Json) → All IsAllowedHere (paths_under disk hub extra key o)
  unfolding paths_under
  paths_under-All key none = tt
  paths_under-All key (some (object fs)) = container-All (get key fs)
  paths_under-All key (some v) = tt

  worktrees-All : All IsAllowedHere (stream_worktrees_from_hub disk hub extra)
  unfolding stream_worktrees_from_hub file_paths
  worktrees-All =
      let states = paths_under-All (text "streams") (disk.load_json (text "streams_state.json")) in
      let leases = paths_under-All (text "leases") (disk.load_json (text "stream_leases.json")) in
      unseen-All IsAllowedHere [] _ (
        All-append IsAllowedHere _ _ (unseen-All IsAllowedHere [] _ states)
          (unseen-All IsAllowedHere [] _ leases))

  if-In :
      (c : Bool) (r : Text) (roots : List Text)
      → In r (if c then hub ∷ roots else roots)
      → (r ≡ hub) ⊎ In r roots
  if-In true r roots m = m
  if-In false r roots m = inr m

  -- Whatever the hub's files hold, `fanout_stop` writes a STOP only in the hub, wherever that lies, and in directories that
  -- are allowed: each is, or lies under, the hub, the worktrees' directory beside it or a root of the configuration that is not
  -- the root of the file system, and is not that root itself.
  pub fanout_stop-allowed :
      (r : Text)
      → In r (fanout_stop disk hub extra)
      → (r ≡ hub) ⊎ (IsAllowedPath disk hub extra r × (disk.is_dir r ≡ true))
  unfolding fanout_stop
  fanout_stop-allowed r m =
      elim (if-In (disk.write_stop hub) r
        (write_stops disk (unseen (hub ∷ []) (stream_worktrees_from_hub disk hub extra))) m) [
          | inl here ↦ inl here
          | inr below ↦ inr (
              All-In (λ p. IsAllowedHere p × (disk.is_dir p ≡ true)) r _
                (write_stops-All IsAllowedHere disk _
                  (unseen-All IsAllowedHere (hub ∷ []) _ worktrees-All))
                below)
        ]

-- ===== src/StreamStop.antt =====
-- memory/stream_stop.py: the cooperative STOP of the hub and of the worktrees that its files name. pathlib and
-- the file system are parameters; resolving the hub itself does not fail, and a path
-- holds no NUL, for which `Path.resolve` raises a ValueError and not an OSError.
pub mod Roots
pub mod Allowed
pub mod Cleared
mod Tests
use agentic_loop_template.Base.{
  ℕ, zero, suc, Bool, true, false, not, ◌&&◌, ◌||◌, List, [], ◌∷◌, ◌++◌, Option, none, some,
  if◌then◌else◌,
}
use agentic_loop_template.Base.Text.{Text, text, is_empty, text_eq, strip}
use agentic_loop_template.Json.{
  Json, null, boolean, integer, float, string, array, object, Items, nil, cons, Fields, end, field,
  get, contains,
}

pub record Disk : Type 0 where
  -- `Path.resolve`, with `none` for an OSError
  pub resolve : Text → Option Text
  pub expanduser : Text → Text
  pub is_absolute : Text → Bool
  -- `a / b`, `Path.parent`, `Path.anchor` and `Path.is_relative_to`
  pub join : Text → Text → Text
  pub parent : Text → Text
  pub anchor : Text → Text
  pub is_relative_to : Text → Text → Bool
  -- `str` of a value that is no string
  pub format : Json → Text
  -- `_load_json`, with `none` for every failure
  pub load_json : Text → Option Json
  pub is_dir : Text → Bool
  -- whether `_write_stop` and `_unlink_stop` succeed
  pub write_stop : Text → Bool
  pub unlink_stop : Text → Bool

abbrev or_same : Text → Option Text → Text
or_same p none = p
or_same p (some r) = r

-- `try: p = p.resolve()`
unfoldable pub resolved : Disk → Text → Text
resolved disk p = or_same p (disk.resolve p)

unfoldable pub is_fs_root : Disk → Text → Bool
is_fs_root disk p = let r = resolved disk p in text_eq r (disk.anchor r)

unfoldable pub default_wt_base : Disk → Text → Text
default_wt_base disk hub =
    disk.join (disk.parent (resolved disk hub)) (text "agentic-loop-worktrees")

unfoldable pub extra_allowed : Disk → List Text → List Text
extra_allowed disk [] = []
extra_allowed disk (raw ∷ raws) =
    let rest = extra_allowed disk raws in
    let p = resolved disk (disk.expanduser raw) in if is_fs_root disk p then rest else p ∷ rest

-- `_allowed_roots`
unfoldable pub allowed_roots : Disk → Text → List Text → List Text
allowed_roots disk hub extra_roots =
    let hub_r = resolved disk hub in
    hub_r ∷ default_wt_base disk hub_r ∷ extra_allowed disk extra_roots

unfoldable pub under_any : Disk → Text → List Text → Bool
under_any disk p [] = false
under_any disk p (root ∷ roots) =
    text_eq p root || disk.is_relative_to p root || under_any disk p roots

-- `_is_allowed`
unfoldable pub is_allowed : Disk → Text → List Text → Text → Bool
is_allowed disk hub extra_roots path =
    let p = resolved disk path in
    not (is_fs_root disk p) && under_any disk p (allowed_roots disk hub extra_roots)

-- `str(raw)`, with none for None
unfoldable pub raw_text : Disk → Json → Option Text
raw_text disk null = none
raw_text disk (string s) = some s
raw_text disk v = some (disk.format v)

-- `if k in seen: continue`, with the paths that were seen
unfoldable pub unseen : List Text → List Text → List Text
unseen seen [] = []
unseen seen (p ∷ ps) =
    let later = unseen seen ps in
    let new = unseen (p ∷ seen) ps in if contains p seen then later else p ∷ new

-- The worktrees where a STOP is written: what is no directory is skipped, and a failure is only logged.
unfoldable pub write_stops : Disk → List Text → List Text
write_stops disk [] = []
write_stops disk (root ∷ roots) =
    let rest = write_stops disk roots in
    if disk.is_dir root && disk.write_stop root then root ∷ rest else rest

unfoldable pub unlink_stops : Disk → List Text → ℕ
unlink_stops disk [] = 0
unlink_stops disk (root ∷ roots) =
    let rest = unlink_stops disk roots in if disk.unlink_stop root then suc rest else rest

module _ (disk : Disk) (hub : Text) (extra_roots : List Text) where
  -- A path that is not empty, resolved, if it is allowed.
  unfoldable pub checked_path : Text → Option Text
  checked_path s =
      let given = disk.expanduser s in
      let p = resolved disk (if disk.is_absolute given then given else disk.join hub given) in
      if is_empty s
      then none
      else if is_fs_root disk p
      then none
      else if is_allowed disk hub extra_roots p
      then some p
      else none

  -- `_normalize_worktree`
  unfoldable pub normalize_worktree : Json → Option Text
  normalize_worktree raw = elim (raw_text disk raw) [
    | none ↦ none
    | some s ↦ checked_path (strip s)
  ]

  -- The worktree of a record; what is no dict has none.
  unfoldable pub worktree_in : Json → Option Text
  worktree_in (object fs) = normalize_worktree (get (text "worktree") fs)
  worktree_in v = none

  unfoldable pub add_path : Option Text → List Text → List Text
  add_path none rest = rest
  add_path (some p) rest = p ∷ rest

  unfoldable pub item_paths : Items → List Text
  item_paths nil = []
  item_paths (cons v vs) = add_path (worktree_in v) (item_paths vs)

  unfoldable pub value_paths : Fields → List Text
  value_paths end = []
  value_paths (field k v fs) = add_path (worktree_in v) (value_paths fs)

  -- `_worktrees_from_container`, before equal paths are dropped
  unfoldable pub container_paths : Json → List Text
  container_paths (object fs) = value_paths fs
  container_paths (array vs) = item_paths vs
  container_paths v = []

  -- `data.get(key)` of a file that holds an object
  unfoldable pub paths_under : Text → Option Json → List Text
  paths_under key none = []
  paths_under key (some (object fs)) = container_paths (get key fs)
  paths_under key (some v) = []

  -- One file of the hub and its key.
  unfoldable pub file_paths : Text → Text → List Text
  file_paths name key = paths_under key (disk.load_json name)

  unfoldable pub stream_worktrees_from_hub : List Text
  stream_worktrees_from_hub = unseen [] (
      unseen [] (file_paths (text "streams_state.json") (text "streams"))
      ++ unseen [] (file_paths (text "stream_leases.json") (text "leases")))

  -- `fanout_stop`: the roots where a STOP was written
  unfoldable pub fanout_stop : List Text
  fanout_stop =
      let worktrees = write_stops disk (unseen (hub ∷ []) stream_worktrees_from_hub) in
      if disk.write_stop hub then hub ∷ worktrees else worktrees

  -- `clear_fanout`
  unfoldable pub clear_fanout : ℕ
  clear_fanout = unlink_stops disk (hub ∷ unseen (hub ∷ []) stream_worktrees_from_hub)

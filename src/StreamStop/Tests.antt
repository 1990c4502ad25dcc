-- ===== src/StreamStop/Tests.antt =====
-- A hub whose leases name a worktree of its own twice, one beside it and the root of the file system.
use agentic_loop_template.Base.{
  ◌≤◌, true, [], ◌∷◌, ◌++◌, none, some, length, In, if◌then◌else◌, ◌≡◌, refl, ◌⊎◌, inl, inr,
}
use agentic_loop_template.Base.Text.{
  Text, text, text_eq, starts_with, strip, is_space, lstrip_by, rstrip_by,
}
use agentic_loop_template.Json.{Json, string, object, end, field, get_or, get, contains}
use agentic_loop_template.StreamStop.{
  Disk, resolved, is_fs_root, default_wt_base, extra_allowed, allowed_roots, under_any, is_allowed,
  raw_text, checked_path, normalize_worktree, worktree_in, add_path, value_paths, container_paths,
  paths_under, file_paths, unseen, stream_worktrees_from_hub, write_stops, fanout_stop,
  clear_fanout,
}
use agentic_loop_template.StreamStop.Roots.{IsAllowedPath}
use agentic_loop_template.StreamStop.Allowed.{fanout_stop-allowed}
use agentic_loop_template.StreamStop.Cleared.{Distinct, fanout_stop-Distinct, clear_fanout-all}

abbrev lease_of : Text → Json
lease_of path = object (field (text "worktree") (string path) end)

abbrev leases : Json
leases = object (
    field (text "leases")
      (object (
        field (text "a") (lease_of (text "/hub/wt")) (
          field (text "b") (lease_of (text " /hub/wt ")) (
            field (text "c") (lease_of (text "/other"))
              (field (text "d") (lease_of (text "/")) end)))))
      end)

abbrev disk : Disk
disk = record {
  resolve = λ p. some p;
  expanduser = λ p. p;
  is_absolute = λ p. starts_with p (text "/");
  join = λ a b. a ++ text "/" ++ b;
  parent = λ p. [];
  anchor = λ p. text "/";
  is_relative_to = λ p root. starts_with p (root ++ text "/");
  format = λ v. [];
  load_json = λ name. if text_eq name (text "stream_leases.json") then some leases else none;
  is_dir = λ p. true;
  write_stop = λ p. true;
  unlink_stop = λ p. true;
}

abbrev hub : Text
hub = text "/hub"

hub_and_worktree : fanout_stop disk hub [] ≡ hub ∷ text "/hub/wt" ∷ []
unfolding resolved is_fs_root default_wt_base extra_allowed allowed_roots under_any is_allowed
    raw_text checked_path normalize_worktree worktree_in add_path value_paths container_paths
    paths_under file_paths unseen stream_worktrees_from_hub write_stops fanout_stop text_eq
    starts_with strip is_space lstrip_by rstrip_by get_or get contains
hub_and_worktree = refl

worktree_written : In (text "/hub/wt") (fanout_stop disk hub [])
worktree_written = rw hub_and_worktree (inr (inl refl))

fanout_stop-allowed_example :
    (text "/hub/wt" ≡ hub)
    ⊎ (IsAllowedPath disk hub [] (text "/hub/wt") × (disk.is_dir (text "/hub/wt") ≡ true))
fanout_stop-allowed_example = fanout_stop-allowed disk hub [] (text "/hub/wt") worktree_written

fanout_stop-Distinct_example : Distinct (fanout_stop disk hub [])
fanout_stop-Distinct_example = fanout_stop-Distinct disk hub []

all_removed : (r : Text) → In r (fanout_stop disk hub []) → disk.unlink_stop r ≡ true
all_removed r m = refl

clear_fanout-all_example : length (fanout_stop disk hub []) ≤ clear_fanout disk hub []
clear_fanout-all_example = clear_fanout-all disk hub [] all_removed

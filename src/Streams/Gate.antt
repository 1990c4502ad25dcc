-- ===== src/Streams/Gate.antt =====
-- memory/streams.py: the owned-paths gate. git answers through a parameter.
pub mod Owned
use agentic_loop_template.Base.{
  ℕ, suc, Bool, true, false, ◌&&◌, ◌||◌, List, [], ◌∷◌, ◌++◌, map, drop, length, leb, ◌==◌,
  if◌then◌else◌, Result, ok, err, ◌>>=◌,
}
use agentic_loop_template.Base.Text.{Text, text, is_empty, text_eq, starts_with, strip}
use agentic_loop_template.Errors.{ValueError}
use agentic_loop_template.Streams.Paths.{norm_rel, path_is_owned}

-- A changed path that the gate skips: empty or "." after normalisation.
unfoldable pub is_skipped : Text → Bool
unfolding text_eq
is_skipped rel = is_empty rel || text_eq rel (text ".")

unfoldable pub files_outside_owned : List Text → List Text → Result ValueError (List Text)
files_outside_owned [] owned_paths = ok []
files_outside_owned (f ∷ changed) owned_paths =
    let rest = files_outside_owned changed owned_paths in
    let rel = norm_rel f in
    if is_skipped rel
    then rest
    else path_is_owned rel owned_paths >>= λ owned.
        rest >>= λ out. ok (if owned then out else rel ∷ out)

-- `subprocess.CompletedProcess`
pub record GitResult : Type 0 where
  pub failed : Bool  -- returncode != 0
  pub stdout : Text

-- `str.splitlines()`: one break for "\r\n".
is_line_break : ℕ → Bool
is_line_break c = leb 10 c && leb c 13 || leb 28 c && leb c 30 || c == 133 || c == 8232 || c == 8233

join_first : ℕ → List Text → List Text
join_first c [] = (c ∷ []) ∷ []
join_first c (w ∷ ws) = (c ∷ w) ∷ ws

unfoldable pub split_lines : Text → List Text
unfolding is_line_break join_first starts_with
split_lines [] = []
split_lines (c ∷ s) =
    let rest = split_lines s in
    if c == 13 && starts_with s (10 ∷ [])
    then rest
    else if is_line_break c
    then [] ∷ rest
    else join_first c rest

-- `[ln.strip() for ln in lines if ln.strip()]`
unfoldable pub nonblank : List Text → List Text
unfolding strip
nonblank [] = []
nonblank (ln ∷ lns) =
    let rest = nonblank lns in if is_empty (strip ln) then rest else strip ln ∷ rest

-- `line[3:].strip()` of the lines of `git status --porcelain` that have a path
unfoldable pub porcelain_paths : List Text → List Text
unfolding strip
porcelain_paths [] = []
porcelain_paths (line ∷ lines) =
    let rest = porcelain_paths lines in
    if leb 4 (length line) then strip (drop 3 line) ∷ rest else rest

-- `git` stands for `_run_git` in the stream's worktree.
module _ (git : List Text → GitResult) where
  unfoldable pub list_changed_files : Text → List Text
  list_changed_files base_ref =
      let against_base =
        git (text "diff" ∷ text "--name-only" ∷ (base_ref ++ text "...HEAD") ∷ []) in
      let plain = git (text "diff" ∷ text "--name-only" ∷ base_ref ∷ []) in
      let status = git (text "status" ∷ text "--porcelain" ∷ []) in
      if against_base.failed
      then (if plain.failed
          then porcelain_paths (split_lines status.stdout)
          else nonblank (split_lines plain.stdout))
      else nonblank (split_lines against_base.stdout)

  unfoldable pub check_owned_paths_gate : List Text → Text → Result ValueError (List Text)
  check_owned_paths_gate owned_paths base_ref =
      files_outside_owned (list_changed_files base_ref) owned_paths

-- ===== src/StreamGit/Worktree.antt =====
-- memory/stream_git.py: the integration worktree.
use agentic_loop_template.Base.{
  not, ◌&&◌, List, [], ◌∷◌, Option, none, some, drop, length, if◌then◌else◌, Result, ok, err,
}
use agentic_loop_template.Base.Text.{Text, text, is_empty, text_eq, starts_with}
use agentic_loop_template.Streams.Gate.{split_lines}
use agentic_loop_template.StreamGit.Branches.{contains_text, sanitize_branch}
use agentic_loop_template.StreamGit.{
  Completed, Log, PathKind, absent, git_checkout, empty_directory, something_else, Git, run_git,
  err_text, abbrev_head, is_dirty,
}

-- The lines of `git worktree list --porcelain`, with the worktree that they are about.
unfoldable pub path_of_branch : Text → Text → List Text → Option Text
path_of_branch branch current [] = none
path_of_branch branch current (line ∷ lines) =
    let later = path_of_branch branch current lines in
    let under = path_of_branch branch (drop 9 line) lines in
    if starts_with line (text "worktree ")
    then under
    else if starts_with line (text "branch ") && not (is_empty current)
    then (let ref = drop 7 line in
        let short = if starts_with ref (text "refs/heads/") then drop 11 ref else ref in
        if text_eq short branch then some current else later)
    else later

unfoldable pub checkout_path_of_branch : Git → Text → Text → Log → Option Text × Log
checkout_path_of_branch git repo branch log =
    let (r, log1) =
      run_git git repo (text "worktree" ∷ text "list" ∷ text "--porcelain" ∷ []) log in
    (if r.failed then none else path_of_branch branch [] (split_lines r.stdout), log1)

-- `IntegrationWorktreeError`
pub data IntegrationError : Type 0 where
  hub_dirty : Text → IntegrationError
  hub_not_moved : Text → IntegrationError
  not_a_worktree : Text → IntegrationError
  checked_out_at : Text → Text → IntegrationError
  checked_out_unknown : Text → IntegrationError
  add_failed : Text → IntegrationError

-- `_recover_hub_if_on_integration`
unfoldable pub recover_hub :
    Git → Text → Text → Text → Log → Result IntegrationError (Unit {0}) × Log
recover_hub git repo_root integration_branch main_branch log =
    let (head, log1) = abbrev_head git repo_root log in
    if not (text_eq head integration_branch)
    then (ok tt, log1)
    else (let (dirty, log2) = is_dirty git repo_root log1 in
        if dirty
        then (err (hub_dirty integration_branch), log2)
        else (let (c, log3) = run_git git repo_root (text "checkout" ∷ main_branch ∷ []) log2 in
            (if c.failed then err (hub_not_moved (err_text c)) else ok tt, log3)))

-- `_raise_add_failed`; that it removes an empty directory left behind is outside of the model.
unfoldable pub why_add_failed : Git → Text → Text → Completed → Log → IntegrationError × Log
why_add_failed git repo_root integration_branch proc log =
    let (other, log1) = checkout_path_of_branch git repo_root integration_branch log in
    (
      elim other [
        | some path ↦ checked_out_at integration_branch path
        | none ↦
            if contains_text (text "already checked out") (git.lower (err_text proc))
            then checked_out_unknown (err_text proc)
            else add_failed (err_text proc)
      ],
      log1,
    )

-- The two forms of `git worktree add`.
unfoldable pub add_worktree :
    Git → Text → Text → Text → Text → Log → Result IntegrationError Text × Log
add_worktree git repo_root dest integration_branch main_branch log =
    let (added, log1) =
      run_git git repo_root
        (text "worktree" ∷ text "add" ∷ text "-b" ∷ integration_branch ∷ dest ∷ main_branch ∷ [])
        log in
    if not added.failed
    then (ok (git.resolve dest), log1)
    else (let (again, log2) =
          run_git git repo_root (text "worktree" ∷ text "add" ∷ dest ∷ integration_branch ∷ [])
            log1 in
        if not again.failed
        then (ok (git.resolve dest), log2)
        else (let (why, log3) = why_add_failed git repo_root integration_branch again log2 in
            (err why, log3)))

-- By what stands at the destination.
unfoldable pub place_worktree :
    Git → Text → Text → Text → Text → PathKind → Log → Result IntegrationError Text × Log
place_worktree git repo_root dest integration_branch main_branch git_checkout log =
    (ok (git.resolve dest), log)
place_worktree git repo_root dest integration_branch main_branch something_else log =
    (err (not_a_worktree dest), log)
place_worktree git repo_root dest integration_branch main_branch absent log =
    add_worktree git repo_root dest integration_branch main_branch log
place_worktree git repo_root dest integration_branch main_branch empty_directory log =
    add_worktree git repo_root dest integration_branch main_branch log

unfoldable pub worktree_after :
    Git
    → Text
    → Text
    → Text
    → Text
    → Result IntegrationError (Unit {0}) × Log
    → Result IntegrationError Text × Log
worktree_after git repo_root dest integration_branch main_branch (err why, log) = (err why, log)
worktree_after git repo_root dest integration_branch main_branch (ok done, log) =
    place_worktree git repo_root dest integration_branch main_branch
      (git.path_kind (length log) dest) log

unfoldable pub ensure_integration_worktree :
    Git → Text → Text → Text → Text → Log → Result IntegrationError Text × Log
ensure_integration_worktree git repo_root wt_base integration_branch main_branch log =
    let dest = git.join wt_base (sanitize_branch integration_branch) in
    worktree_after git repo_root dest integration_branch main_branch
      (recover_hub git repo_root integration_branch main_branch log)

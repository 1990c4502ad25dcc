-- ===== src/Streams/Provision.antt =====
-- memory/streams.py: `provision_stream_worktrees`. The cycle's name stands for the clock where no id is given.
pub mod Keeps
use agentic_loop_template.Base.{
  Bool, true, false, List, [], ◌∷◌, ◌++◌, Option, none, some, length, if◌then◌else◌, Result, ok,
  err,
}
use agentic_loop_template.Base.Text.{Text, text, is_empty}
use agentic_loop_template.Streams.Plans.{StreamPlan, pending}
use agentic_loop_template.StreamGit.{
  Completed, Log, Git, PathKind, absent, git_checkout, empty_directory, something_else, run_git,
  output_of,
}

-- `RuntimeError`
pub data ProvisionError : Type 0 where
  path_in_use : Text → ProvisionError
  -- the stream, and what git said of both forms
  not_added : Text → Text → Text → ProvisionError

-- `x or default`
unfoldable pub or_else : Option Text → Text → Text
or_else none default = default
or_else (some s) default = if is_empty s then default else s

module _ (git : Git) (repo_root wt_base cycle_id main_branch : Text) where
  unfoldable pub branch_of : StreamPlan → Text
  branch_of plan = or_else plan.branch (text "feature/" ++ cycle_id ++ text "-" ++ plan.name)

  unfoldable pub worktree_of : StreamPlan → Text
  worktree_of plan = or_else plan.worktree (git.join wt_base (cycle_id ++ text "-" ++ plan.name))

  unfoldable pub provisioned : StreamPlan → StreamPlan
  provisioned plan = record plan {
    worktree = some (git.resolve (worktree_of plan));
    branch = some (branch_of plan);
    status = pending;
  }

  -- `git worktree add -b`, and without `-b` when that fails
  unfoldable pub add_stream_worktree : StreamPlan → Log → Result ProvisionError StreamPlan × Log
  add_stream_worktree plan log =
      let wt = worktree_of plan in
      let branch = branch_of plan in
      let (r, log1) =
        run_git git repo_root
          (text "worktree" ∷ text "add" ∷ text "-b" ∷ branch ∷ wt ∷ main_branch ∷ []) log in
      let (r2, log2) =
        run_git git repo_root (text "worktree" ∷ text "add" ∷ wt ∷ branch ∷ []) log1 in
      if r.failed
      then (
        if r2.failed
            then err (not_added plan.name (output_of r) (output_of r2))
            else ok (provisioned plan),
        log2,
      )
      else (ok (provisioned plan), log1)

  unfoldable pub provision_at : StreamPlan → PathKind → Log → Result ProvisionError StreamPlan × Log
  provision_at plan git_checkout log = (ok (provisioned plan), log)
  provision_at plan something_else log = (err (path_in_use (worktree_of plan)), log)
  provision_at plan empty_directory log = add_stream_worktree plan log
  provision_at plan absent log = add_stream_worktree plan log

  unfoldable pub provision_one : StreamPlan → Log → Result ProvisionError StreamPlan × Log
  provision_one plan log = provision_at plan (git.path_kind (length log) (worktree_of plan)) log

  -- The plans after the first one, which was made ready or was not.
  unfoldable pub with_first :
      Result ProvisionError StreamPlan × Log
      → Result ProvisionError (List StreamPlan) × Log
      → Result ProvisionError (List StreamPlan) × Log
  with_first (err e, log) rest = (err e, log)
  with_first (ok p, log) (err e, log1) = (err e, log1)
  with_first (ok p, log) (ok ps, log1) = (ok (p ∷ ps), log1)

  unfoldable pub provision_stream_worktrees :
      List StreamPlan → Log → Result ProvisionError (List StreamPlan) × Log
  provision_stream_worktrees [] log = (ok [], log)
  provision_stream_worktrees (plan ∷ plans) log =
      with_first (provision_one plan log)
        (provision_stream_worktrees plans (provision_one plan log).1)

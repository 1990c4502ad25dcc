-- ===== src/StreamGit.antt =====
-- memory/stream_git.py: git commands, merges and pushes. git, the file system and the answers of
-- pathlib are parameters; the commands that were run are kept in a log, the last one first.
pub mod Branches
pub mod Names
pub mod Worktree
pub mod Protected
mod Tests
use agentic_loop_template.Base.{
  ℕ, zero, suc, Bool, true, false, not, ◌&&◌, ◌||◌, List, [], ◌∷◌, ◌++◌, Option, none, some, take,
  drop, length, if◌then◌else◌, Result, ok, err,
}
use agentic_loop_template.Base.Text.{Text, text, is_empty, text_eq, starts_with, strip}
use agentic_loop_template.Streams.Gate.{split_lines}
use agentic_loop_template.StreamGit.Branches.{
  contains_text, is_protected, is_protected_name, sanitize_branch,
}

-- `subprocess.CompletedProcess`
pub record Completed : Type 0 where
  pub failed : Bool  -- returncode != 0
  pub stdout : Text
  pub stderr : Text

pub record Command : Type 0 where
  pub cwd : Text
  pub args : List Text

abbrev pub Log : Type 0
Log = List Command

-- What stands at a path: `exists`, `.git` in it, and whether it is a directory without entries.
pub data PathKind : Type 0 where
  absent git_checkout empty_directory something_else : PathKind

-- What is outside. A command, and a look at the file system, is numbered by the commands before it.
pub record Git : Type 0 where
  pub run : ℕ → Command → Completed
  -- `none` for `TimeoutExpired`
  pub run_timed : ℕ → Command → Option Completed
  pub path_kind : ℕ → Text → PathKind
  -- `str.lower`, `a / b` and `Path.resolve`
  pub lower : Text → Text
  pub join : Text → Text → Text
  pub resolve : Text → Text

unfoldable pub run_git : Git → Text → List Text → Log → Completed × Log
run_git git cwd args log =
    let c : Command = record { cwd = cwd; args = args } in (git.run (length log) c, c ∷ log)

unfoldable pub run_git_timed : Git → Text → List Text → Log → Option Completed × Log
run_git_timed git cwd args log =
    let c : Command = record { cwd = cwd; args = args } in (git.run_timed (length log) c, c ∷ log)

-- `proc.stderr or proc.stdout or ""`
unfoldable pub output_of : Completed → Text
output_of proc = if is_empty proc.stderr then proc.stdout else proc.stderr

-- `_err_text`
unfoldable pub err_text : Completed → Text
err_text proc = take 500 (strip (output_of proc))

unfoldable pub abbrev_head : Git → Text → Log → Text × Log
abbrev_head git cwd log =
    let (r, log1) =
      run_git git cwd (text "rev-parse" ∷ text "--abbrev-ref" ∷ text "HEAD" ∷ []) log in
    (strip r.stdout, log1)

unfoldable pub is_dirty : Git → Text → Log → Bool × Log
is_dirty git cwd log =
    let (r, log1) = run_git git cwd (text "status" ∷ text "--porcelain" ∷ []) log in
    (not (is_empty (strip r.stdout)), log1)

unfoldable pub nothing_to_abort : Git → Completed → Bool
nothing_to_abort git proc =
    let said = git.lower (output_of proc) in
    not proc.failed
    || contains_text (text "no merge to abort") said
    || contains_text (text "merge_head missing") said
    || contains_text (text "нет слияния") said
    || contains_text (text "отсутствует файл merge_head") said

-- `_unlink_index_lock`: what it asks of git; the unlinking is outside of the model.
unfoldable pub unlink_index_lock : Git → Text → Log → Log
unlink_index_lock git cwd log = (run_git git cwd (text "rev-parse" ∷ text "--git-dir" ∷ []) log).1

-- One round of `_abort_merge`: an error to report, or none.
unfoldable pub try_abort : Git → Text → Log → Option Text × Log
try_abort git cwd log =
    let (aborted, log1) = run_git_timed git cwd (text "merge" ∷ text "--abort" ∷ []) log in
    (
      elim aborted [
        | none ↦ some (text "merge --abort timeout")
        | some proc ↦ if nothing_to_abort git proc then none else some (err_text proc)
      ],
      log1,
    )

-- `_abort_merge`, with what its first round gave
unfoldable pub abort_again : Git → Text → Option Text × Log → Option Text × Log
abort_again git cwd (none, log) = (none, log)
abort_again git cwd (some why, log) = try_abort git cwd (unlink_index_lock git cwd log)

unfoldable pub abort_merge : Git → Text → Log → Option Text × Log
abort_merge git cwd log = abort_again git cwd (try_abort git cwd log)

-- The failure of a merge, once it is aborted.
unfoldable pub aborted_merge : Git → Text → Text → Log → Result Text (Unit {0}) × Log
aborted_merge git wd why log =
    let (abort_err, log1) = abort_merge git wd log in
    (elim abort_err [ none ↦ err why | some e ↦ err (why ++ text "; abort failed: " ++ e) ], log1)

unfoldable pub merge_args : Text → List Text
merge_args branch =
    text "merge" ∷ text "--no-ff" ∷ branch ∷ text "-m" ∷ (text "Слил ветку потока " ++ branch) ∷ []

-- What `git merge` came to.
unfoldable pub after_merge : Git → Text → Option Completed × Log → Result Text (Unit {0}) × Log
after_merge git wd (none, log) = aborted_merge git wd (text "merge timeout") log
after_merge git wd (some proc, log) =
    if proc.failed then aborted_merge git wd (err_text proc) log else (ok tt, log)

unfoldable pub merge_here : Git → Text → Text → Log → Result Text (Unit {0}) × Log
merge_here git wd branch log = after_merge git wd (run_git_timed git wd (merge_args branch) log)

unfoldable pub merge_stream_branch :
    Git → Text → Text → Text → Text → Log → Result Text (Unit {0}) × Log
merge_stream_branch git wd stream_branch integration_branch main_branch log =
    if is_protected integration_branch main_branch
    then (err (text "never merge into main"), log)
    else (let (head, log1) = abbrev_head git wd log in
        if text_eq head integration_branch
        then merge_here git wd stream_branch log1
        else (let (c, log2) = run_git git wd (text "checkout" ∷ integration_branch ∷ []) log1 in
            if c.failed then (err (err_text c), log2) else merge_here git wd stream_branch log2))

unfoldable pub push_branch : Git → Text → Text → Text → Log → Result Text (Unit {0}) × Log
push_branch git workdir branch remote log =
    let name = strip branch in
    if is_protected_name name
    then (err (text "refusing to push protected branch"), log)
    else (let (pushed, log1) =
          run_git_timed git workdir (text "push" ∷ text "-u" ∷ remote ∷ name ∷ []) log in
        (
          elim pushed [
            | none ↦ err (text "push timeout")
            | some proc ↦ if proc.failed then err (err_text proc) else ok tt
          ],
          log1,
        ))

-- ===== src/StreamGit/Protected.antt =====
-- memory/stream_git.py: which commands the functions give to git, and where the integration worktree lies.
use agentic_loop_template.Base.{
  Bool, true, false, ◌&&◌, ◌||◌, List, [], ◌∷◌, Option, none, some, if◌then◌else◌, Result, ok, err,
  ◌≡◌, refl, sym, subst, inl, inr, All, Bool-cases, length, In,
}
use agentic_loop_template.Base.Text.{Text, text, text_eq, strip}
use agentic_loop_template.StreamGit.{
  Completed, Command, Log, Git, run_git, run_git_timed, abbrev_head, is_dirty, unlink_index_lock,
  try_abort, abort_again, abort_merge, after_merge, aborted_merge, merge_here, merge_args,
  merge_stream_branch, push_branch, err_text, git_checkout, something_else, absent, empty_directory,
  PathKind,
}
use agentic_loop_template.StreamGit.Worktree.{
  worktree_after, checkout_path_of_branch, recover_hub, why_add_failed, add_worktree,
  place_worktree, ensure_integration_worktree, IntegrationError,
}
use agentic_loop_template.StreamGit.Branches.{is_protected, is_protected_name, sanitize_branch}

-- main or master stands among the arguments, as it is written.
unfoldable pub any_protected : List Text → Bool
any_protected [] = false
any_protected (a ∷ args) = is_protected_name a || any_protected args

-- `git push` with main or master among its arguments. A refspec that names the same branch in another way, such as
-- refs/heads/main or x:main, is another argument here, as it is to `push_branch`.
unfoldable pub names_protected : List Text → Bool
names_protected [] = false
names_protected (verb ∷ args) = text_eq verb (text "push") && any_protected args

unfoldable pub IsSafeLog : Log → Type 0
IsSafeLog log = All (λ (c : Command). names_protected c.args ≡ false) log

pub empty-IsSafeLog : IsSafeLog []
unfolding IsSafeLog
empty-IsSafeLog = tt

pub IsSafeLog-In :
    (c : Command) (log : Log) → IsSafeLog log → In c log → names_protected c.args ≡ false
unfolding IsSafeLog
IsSafeLog-In c (d ∷ log) (here, safe) (inl same) =
    subst (λ (x : Command). names_protected x.args ≡ false) (sym same) here
IsSafeLog-In c (d ∷ log) (here, safe) (inr later) = IsSafeLog-In c log safe later
IsSafeLog-In c [] safe none_left = elim none_left [ ]

-- One more command.
pub logged :
    (c : Command) (log : Log) → names_protected c.args ≡ false → IsSafeLog log → IsSafeLog (c ∷ log)
unfolding IsSafeLog
logged c log other safe = (other, safe)

-- A function that gives git no push that names main or master.
abbrev pub KeepsSafe : {A : Type 0} → (Log → A × Log) → Type 0
KeepsSafe f = (log : Log) → IsSafeLog log → IsSafeLog (f log).1

if-IsSafeLog :
    {A : Type 0} (c : Bool) (x y : A × Log)
    → IsSafeLog x.1
    → IsSafeLog y.1
    → IsSafeLog (if c then x else y).1
if-IsSafeLog true x y sx sy = sx
if-IsSafeLog false x y sx sy = sy

try_abort-IsSafeLog : (git : Git) (cwd : Text) → KeepsSafe (try_abort git cwd)
unfolding try_abort run_git_timed names_protected text_eq
try_abort-IsSafeLog git cwd log safe = logged _ _ refl safe

abort_again-IsSafeLog :
    (git : Git) (cwd : Text) (x : Option Text × Log)
    → IsSafeLog x.1
    → IsSafeLog (abort_again git cwd x).1
unfolding abort_again unlink_index_lock run_git names_protected text_eq
abort_again-IsSafeLog git cwd (none, log) safe = safe
abort_again-IsSafeLog git cwd (some why, log) safe =
    try_abort-IsSafeLog git cwd (unlink_index_lock git cwd log) (logged _ _ refl safe)

aborted-IsSafeLog : (git : Git) (wd why : Text) → KeepsSafe (aborted_merge git wd why)
unfolding aborted_merge abort_merge
aborted-IsSafeLog git wd why log safe =
    abort_again-IsSafeLog git wd (try_abort git wd log) (try_abort-IsSafeLog git wd log safe)

after_merge-IsSafeLog :
    (git : Git) (wd : Text) (x : Option Completed × Log)
    → IsSafeLog x.1
    → IsSafeLog (after_merge git wd x).1
unfolding after_merge
after_merge-IsSafeLog git wd (none, log) safe = aborted-IsSafeLog git wd _ log safe
after_merge-IsSafeLog git wd (some proc, log) safe =
    if-IsSafeLog proc.failed (aborted_merge git wd (err_text proc) log) (ok tt, log)
      (aborted-IsSafeLog git wd _ log safe) safe

merge_here-IsSafeLog : (git : Git) (wd branch : Text) → KeepsSafe (merge_here git wd branch)
unfolding merge_here run_git_timed merge_args names_protected text_eq
merge_here-IsSafeLog git wd branch log safe =
    after_merge-IsSafeLog git wd (run_git_timed git wd (merge_args branch) log)
      (logged _ _ refl safe)

pub merge_stream-IsSafeLog :
    (git : Git) (wd stream_branch integration_branch main_branch : Text)
    → KeepsSafe (merge_stream_branch git wd stream_branch integration_branch main_branch)
unfolding merge_stream_branch abbrev_head run_git names_protected text_eq
merge_stream-IsSafeLog git wd stream_branch integration_branch main_branch log safe =
    let (head, log1) = abbrev_head git wd log in
    let (c, log2) = run_git git wd (text "checkout" ∷ integration_branch ∷ []) log1 in
    let safe1 : IsSafeLog log1 = logged _ _ refl safe in
    let safe2 : IsSafeLog log2 = logged _ _ refl safe1 in
    if-IsSafeLog (is_protected integration_branch main_branch) _ _ safe (
      if-IsSafeLog (text_eq head integration_branch) _ _
        (merge_here-IsSafeLog git wd stream_branch log1 safe1)
        (if-IsSafeLog _ _ _ safe2 (merge_here-IsSafeLog git wd stream_branch log2 safe2)))

plain_push :
    (remote name : Text)
    → is_protected_name remote ≡ false
    → is_protected_name name ≡ false
    → names_protected (text "push" ∷ text "-u" ∷ remote ∷ name ∷ []) ≡ false
unfolding names_protected any_protected text_eq is_protected_name
plain_push remote name r n = rw (r, n) refl

pub push-IsSafeLog :
    (git : Git) (workdir branch remote : Text)
    → is_protected_name remote ≡ false
    → KeepsSafe (push_branch git workdir branch remote)
unfolding push_branch run_git_timed
push-IsSafeLog git workdir branch remote no_branch log safe =
    elim (Bool-cases (is_protected_name (strip branch))) [
      | inl main ↦ rw main safe
      | inr other ↦
          let more =
            logged
              (record {
                cwd = workdir;
                args = text "push" ∷ text "-u" ∷ remote ∷ strip branch ∷ [];
              })
              log (plain_push remote (strip branch) no_branch other) safe in
          rw other more
    ]

recover_hub-IsSafeLog :
    (git : Git) (repo integration_branch main_branch : Text)
    → KeepsSafe (recover_hub git repo integration_branch main_branch)
unfolding recover_hub abbrev_head is_dirty run_git names_protected text_eq
recover_hub-IsSafeLog git repo integration_branch main_branch log safe =
    let (head, log1) = abbrev_head git repo log in
    let (dirty, log2) = is_dirty git repo log1 in
    let (c, log3) = run_git git repo (text "checkout" ∷ main_branch ∷ []) log2 in
    let safe1 : IsSafeLog log1 = logged _ _ refl safe in
    let safe2 : IsSafeLog log2 = logged _ _ refl safe1 in
    let safe3 : IsSafeLog log3 = logged _ _ refl safe2 in
    elim (Bool-cases (text_eq head integration_branch)) [
      | inr elsewhere ↦ rw elsewhere safe1
      | inl there ↦ elim (Bool-cases dirty) [
        | inl d ↦ rw (there, d) safe2
        | inr d ↦ rw (there, d) safe3
      ]
    ]

add_worktree-IsSafeLog :
    (git : Git) (repo dest integration_branch main_branch : Text)
    → KeepsSafe (add_worktree git repo dest integration_branch main_branch)
unfolding add_worktree why_add_failed checkout_path_of_branch run_git names_protected text_eq
add_worktree-IsSafeLog git repo dest integration_branch main_branch log safe =
    let new_branch =
      text "worktree" ∷ text "add" ∷ text "-b" ∷ integration_branch ∷ dest ∷ main_branch ∷ [] in
    let old_branch = text "worktree" ∷ text "add" ∷ dest ∷ integration_branch ∷ [] in
    let (added, log1) = run_git git repo new_branch log in
    let (again, log2) = run_git git repo old_branch log1 in
    let (why, log3) = why_add_failed git repo integration_branch again log2 in
    let safe1 : IsSafeLog log1 = logged _ _ refl safe in
    let safe2 : IsSafeLog log2 = logged _ _ refl safe1 in
    let safe3 : IsSafeLog log3 = logged _ _ refl safe2 in
    elim (Bool-cases added.failed) [
      | inr done ↦ rw done safe1
      | inl e ↦ elim (Bool-cases again.failed) [
        | inr done ↦ rw (e, done) safe2
        | inl e2 ↦ rw (e, e2) safe3
      ]
    ]

place-IsSafeLog :
    (git : Git) (repo dest integration_branch main_branch : Text) (kind : PathKind)
    → KeepsSafe (place_worktree git repo dest integration_branch main_branch kind)
unfolding place_worktree
place-IsSafeLog git repo dest ib mb git_checkout log safe = safe
place-IsSafeLog git repo dest ib mb something_else log safe = safe
place-IsSafeLog git repo dest ib mb absent log safe =
    add_worktree-IsSafeLog git repo dest ib mb log safe
place-IsSafeLog git repo dest ib mb empty_directory log safe =
    add_worktree-IsSafeLog git repo dest ib mb log safe

worktree_after-IsSafeLog :
    (git : Git) (repo dest integration_branch main_branch : Text)
    (x : Result IntegrationError (Unit {0}) × Log)
    → IsSafeLog x.1
    → IsSafeLog (worktree_after git repo dest integration_branch main_branch x).1
unfolding worktree_after
worktree_after-IsSafeLog git repo dest ib mb (err why, log) safe = safe
worktree_after-IsSafeLog git repo dest ib mb (ok done, log) safe =
    place-IsSafeLog git repo dest ib mb (git.path_kind (length log) dest) log safe

pub ensure-IsSafeLog :
    (git : Git) (repo wt_base integration_branch main_branch : Text)
    → KeepsSafe (ensure_integration_worktree git repo wt_base integration_branch main_branch)
unfolding ensure_integration_worktree
ensure-IsSafeLog git repo wt_base ib mb log safe =
    worktree_after-IsSafeLog git repo (git.join wt_base (sanitize_branch ib)) ib mb
      (recover_hub git repo ib mb log) (recover_hub-IsSafeLog git repo ib mb log safe)

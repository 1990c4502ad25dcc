-- ===== src/StreamGit/Tests.antt =====
-- memory/stream_git.py: directory names of branches, and what the test for protected branches lets through.
use agentic_loop_template.Base.{◌≡◌, refl, false, some, ok, [], ◌∷◌, ◌++◌}
use agentic_loop_template.Base.Text.{
  Text, text, strip, is_space, text_eq, starts_with, lstrip_by, rstrip_by,
}
use agentic_loop_template.StreamGit.Branches.{
  is_protected_name, is_safe_char, replace_unsafe, squeeze_dashes, strip_dashes, sanitize_branch,
}
use agentic_loop_template.StreamGit.{Git, git_checkout, run_git_timed, push_branch}
use agentic_loop_template.StreamGit.Names.{IsPathName, sanitize_branch-IsPathName}

slash_becomes_dash : sanitize_branch (text "feature//x") ≡ text "feature-x"
unfolding text_eq starts_with lstrip_by rstrip_by is_safe_char replace_unsafe squeeze_dashes
    strip_dashes sanitize_branch
slash_becomes_dash = refl

parent_becomes_integration : sanitize_branch (text "/../") ≡ text "integration"
unfolding text_eq starts_with lstrip_by rstrip_by is_safe_char replace_unsafe squeeze_dashes
    strip_dashes sanitize_branch
parent_becomes_integration = refl

sanitize_branch-IsPathName_example : IsPathName (sanitize_branch (text "/../"))
sanitize_branch-IsPathName_example = sanitize_branch-IsPathName (text "/../")

-- `push_branch` gives git a full name of main.
abbrev ready_git : Git
ready_git = record {
  run = λ n c. record { failed = false; stdout = []; stderr = [] };
  run_timed = λ n c. some (record { failed = false; stdout = []; stderr = [] });
  path_kind = λ n path. git_checkout;
  lower = λ s. s;
  join = λ a b. a ++ b;
  resolve = λ s. s;
}

abbrev full_name : Text
full_name = text "refs/heads/main"

full_name_pushed : push_branch ready_git (text "wt") full_name (text "origin") [] ≡ (
  ok tt,
  record { cwd = text "wt"; args = text "push" ∷ text "-u" ∷ text "origin" ∷ full_name ∷ [] } ∷ [],
)
unfolding push_branch run_git_timed is_protected_name text_eq strip lstrip_by rstrip_by is_space
full_name_pushed = refl

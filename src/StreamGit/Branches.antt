-- ===== src/StreamGit/Branches.antt =====
-- memory/stream_git.py: names of branches, in paths and among the protected ones.
use agentic_loop_template.Base.{ℕ, Bool, not, ◌&&◌, ◌||◌, [], ◌∷◌, ◌==◌, leb, if◌then◌else◌}
use agentic_loop_template.Base.Text.{
  Text, text, is_empty, text_eq, starts_with, strip, lstrip_by, rstrip_by,
}

-- `part in s`
unfoldable pub contains_text : Text → Text → Bool
contains_text part [] = is_empty part
contains_text part (c ∷ s) = starts_with (c ∷ s) part || contains_text part s

-- `name in _PROTECTED_BRANCHES`
unfoldable pub is_protected_name : Text → Bool
is_protected_name name = text_eq name (text "main") || text_eq name (text "master")

-- `_is_protected`: main, master and the branch given.
unfoldable pub is_protected : Text → Text → Bool
is_protected branch extra =
    let name = strip branch in
    let other = strip extra in is_protected_name name || not (is_empty other) && text_eq name other

-- [A-Za-z0-9._-]
unfoldable pub is_safe_char : ℕ → Bool
is_safe_char c =
    leb b'A' c && leb c b'Z'
    || leb b'a' c && leb c b'z'
    || leb b'0' c && leb c b'9'
    || c == b'.'
    || c == b'_'
    || c == b'-'

-- `_UNSAFE_IN_PATH.sub("-", name)`
unfoldable pub replace_unsafe : Text → Text
replace_unsafe [] = []
replace_unsafe (c ∷ s) = (if is_safe_char c then c else b'-') ∷ replace_unsafe s

-- `re.sub(r"-{2,}", "-", s)`
unfoldable pub squeeze_dashes : Text → Text
squeeze_dashes [] = []
squeeze_dashes (c ∷ s) =
    let rest = squeeze_dashes s in if c == b'-' && starts_with s (b'-' ∷ []) then rest else c ∷ rest

-- `s.strip("-")`
unfoldable pub strip_dashes : Text → Text
strip_dashes s = rstrip_by (λ c. c == b'-') (lstrip_by (λ c. c == b'-') s)

unfoldable pub sanitize_branch : Text → Text
sanitize_branch name =
    let cleaned = strip_dashes (squeeze_dashes (replace_unsafe name)) in
    if is_empty cleaned || text_eq cleaned (text ".") || text_eq cleaned (text "..")
    then text "integration"
    else cleaned

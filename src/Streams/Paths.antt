-- ===== src/Streams/Paths.antt =====
-- memory/streams.py: path tokens, which files a token owns, and when one token covers another.
-- `os.sep` is "/", so `Path` is `PurePosixPath`.
pub mod Reach
pub mod Cover
use agentic_loop_template.Base.{
  ℕ, ◌-◌, Bool, true, false, not, ◌&&◌, ◌||◌, List, [], ◌∷◌, ◌++◌, Option, none, some, map, length,
  drop, ltb, ◌==◌, if◌then◌else◌, Result, ok, err, ◌>>=◌,
}
use agentic_loop_template.Errors.{ValueError, empty_owned_path}
use agentic_loop_template.Base.Text.{
  Text, text, is_empty, text_eq, starts_with, ends_with_char, rstrip_by, strip, split_on, rfind,
}

abbrev pub slash : ℕ
slash = b'/'

abbrev pub is_slash : ℕ → Bool
is_slash c = c == slash

-- `p.replace("\\", "/")`
unfoldable pub to_slashes : Text → Text
to_slashes = map (λ c. if c == 92 then slash else c)

unfoldable pub norm_owned : Text → Result ValueError Text
norm_owned p = let q = to_slashes (strip p) in if is_empty q then err empty_owned_path else ok q

-- `while rel.startswith("./"): rel = rel[2:]`
unfoldable pub drop_dot_slashes : Text → Text
drop_dot_slashes [] = []
drop_dot_slashes (c ∷ []) = c ∷ []
drop_dot_slashes (c ∷ d ∷ s) = if c == b'.' && d == slash then drop_dot_slashes s else c ∷ d ∷ s

unfoldable pub norm_rel : Text → Text
norm_rel rel_path = drop_dot_slashes (to_slashes rel_path)

-- `Path(s).name`: the last component; empty components and "." do not count.
unfoldable pub last_component : Text → List Text → Text
unfolding text_eq
last_component acc [] = acc
last_component acc (seg ∷ segs) =
    last_component (if is_empty seg || text_eq seg (text ".") then acc else seg) segs

-- `Path(s).suffix`
unfoldable pub path_suffix : Text → Text
unfolding last_component split_on rfind
path_suffix s =
    let name = last_component [] (split_on slash s) in
    elim (rfind b'.' name) [
      | none ↦ []
      | some i ↦ if ltb 0 i && ltb i (length name - 1) then drop i name else []
    ]

-- One round of the loop of `path_is_owned`, on a normalised token.
unfoldable pub token_owns : Text → Text → Bool
unfolding text_eq starts_with ends_with_char rstrip_by path_suffix
token_owns rel own =
    if ends_with_char slash own
    then (let base = rstrip_by is_slash own in
        text_eq rel base || starts_with rel own || starts_with rel (base ++ slash ∷ []))
    else text_eq rel own || is_empty (path_suffix own) && starts_with rel (own ++ slash ∷ [])

unfoldable pub owned_by_any : Text → List Text → Result ValueError Bool
owned_by_any rel [] = ok false
owned_by_any rel (raw ∷ owned_paths) =
    let rest = owned_by_any rel owned_paths in
    norm_owned raw >>= λ own. if token_owns rel own then ok true else rest

unfoldable pub path_is_owned : Text → List Text → Result ValueError Bool
path_is_owned rel_path owned_paths = owned_by_any (norm_rel rel_path) owned_paths

-- The directory form of a token: with a trailing slash, or without a file extension.
dir_form : Text → Option Text
unfolding ends_with_char path_suffix
dir_form a =
    if ends_with_char slash a
    then some a
    else if is_empty (path_suffix a)
    then some (a ++ slash ∷ [])
    else none

dir_covers : Option Text → Text → Bool
dir_covers none b = false
dir_covers (some a_dir) b = text_eq b (rstrip_by is_slash a_dir) || starts_with b a_dir

-- `_owned_covers`, after the two tokens are normalised
unfoldable pub token_covers : Text → Text → Bool
unfolding text_eq starts_with rstrip_by dir_form dir_covers
token_covers a b = if text_eq a b then true else dir_covers (dir_form a) b

unfoldable pub owned_covers : Text → Text → Result ValueError Bool
owned_covers a b = do a_n ← norm_owned a; b_n ← norm_owned b; ok (token_covers a_n b_n)

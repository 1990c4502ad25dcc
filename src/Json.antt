-- ===== src/Json.antt =====
-- The values that `json.loads` returns, and what Python's operators do with them.
pub mod Shapes
use agentic_loop_template.Base.{
  Bool, true, false, not, ◌&&◌, ◌||◌, List, [], ◌∷◌, ◌==◌, if◌then◌else◌, Result, ok, err, ◌>>=◌,
}
use agentic_loop_template.Base.Int.{ℤ, pos, negsuc}
use agentic_loop_template.Base.Text.{Text, text_eq, is_empty, upper}

-- A float by what the program sees of it: its value cut off to an integer, and whether it is whole.
pub data Float : Type 0 where
  finite : ℤ → Bool → Float
  infinite : Float
  not_a_number : Float

mutual
  pub data Json : Type 0 where
    null : Json
    boolean : Bool → Json
    integer : ℤ → Json
    float : Float → Json
    string : Text → Json
    array : Items → Json
    object : Fields → Json

  pub data Items : Type 0 where
    nil : Items
    cons : Json → Items → Items

  -- A dict, in the order of its keys.
  pub data Fields : Type 0 where
    end : Fields
    field : Text → Json → Fields → Fields

-- An exception that no handler of the caller names.
pub data Crash : Type 0 where
  attribute_error type_error overflow_error proxy_error adapter_error : Crash

-- `d.get(key, default)`, and `d.get(key)`, which is None for a missing key.
unfoldable pub get_or : Json → Text → Fields → Json
get_or default key end = default
get_or default key (field k v fs) = if text_eq k key then v else get_or default key fs

unfoldable pub get : Text → Fields → Json
get key fs = get_or null key fs

unfoldable pub is_zero_ℤ : ℤ → Bool
is_zero_ℤ (pos n) = n == 0
is_zero_ℤ (negsuc n) = false

-- `key in d`
unfoldable pub has_key : Text → Fields → Bool
has_key key end = false
has_key key (field k v fs) = text_eq k key || has_key key fs

-- `bool(v)`
unfoldable pub truthy : Json → Bool
truthy null = false
truthy (boolean b) = b
truthy (integer n) = not (is_zero_ℤ n)
truthy (float (finite n whole)) = not (whole && is_zero_ℤ n)
truthy (float infinite) = true
truthy (float not_a_number) = true
truthy (string s) = not (is_empty s)
truthy (array nil) = false
truthy (array (cons v vs)) = true
truthy (object end) = false
truthy (object (field k v fs)) = true

-- `(v or "").upper()`
unfoldable pub upper_of : Json → Result Crash Text
upper_of (string s) = ok (upper s)
upper_of v = if truthy v then err attribute_error else ok []

-- `v == s`
unfoldable pub equals_text : Text → Json → Bool
equals_text s (string t) = text_eq t s
equals_text s v = false

unfoldable pub is_null : Json → Bool
is_null null = true
is_null v = false

unfoldable pub is_dict : Json → Bool
is_dict (object fs) = true
is_dict v = false

unfoldable pub contains : Text → List Text → Bool
contains s [] = false
contains s (t ∷ ts) = text_eq t s || contains s ts

-- `v in s` for a set of strings; a list or a dict has no hash.
unfoldable pub in_set : Json → List Text → Result Crash Bool
in_set (string s) ts = ok (contains s ts)
in_set (array vs) ts = err type_error
in_set (object fs) ts = err type_error
in_set v ts = ok false

text_items : Items → Result Crash (List Text)
text_items nil = ok []
text_items (cons (string s) vs) = text_items vs >>= λ ts. ok (s ∷ ts)
text_items (cons (array ws) vs) = err type_error
text_items (cons (object fs) vs) = err type_error
text_items (cons v vs) = text_items vs

characters : Text → List Text
characters [] = []
characters (c ∷ s) = (c ∷ []) ∷ characters s

keys : Fields → List Text
keys end = []
keys (field k v fs) = k ∷ keys fs

-- The strings of `set(v or [])`.
unfoldable pub text_set : Json → Result Crash (List Text)
unfolding text_items characters keys
text_set (array vs) = text_items vs
text_set (string s) = ok (characters s)
text_set (object fs) = ok (keys fs)
text_set v = if truthy v then err type_error else ok []

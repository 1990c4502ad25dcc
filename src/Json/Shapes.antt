-- ===== src/Json/Shapes.antt =====
-- The values that `json.loads` returns: what the tests of the program on a value say of it.
use agentic_loop_template.Base.{◌≡◌, refl, ap, ◌↔◌, true}
use agentic_loop_template.Base.Text.{Text, text_eq_iff}
use agentic_loop_template.Json.{
  Json, null, boolean, integer, float, string, array, object, Fields, equals_text, is_null, is_dict,
}

pub is_dict_iff : (v : Json) → (is_dict v ≡ true) ↔ ((found : Fields) × (v ≡ object found))
unfolding is_dict
is_dict_iff (object fs) = (λ h. (fs, refl), λ h. refl)
is_dict_iff null = (λ h. cc h, λ h. cc h.1)
is_dict_iff (boolean b) = (λ h. cc h, λ h. cc h.1)
is_dict_iff (integer n) = (λ h. cc h, λ h. cc h.1)
is_dict_iff (float x) = (λ h. cc h, λ h. cc h.1)
is_dict_iff (string s) = (λ h. cc h, λ h. cc h.1)
is_dict_iff (array vs) = (λ h. cc h, λ h. cc h.1)

pub is_null_iff : (v : Json) → (is_null v ≡ true) ↔ (v ≡ null)
unfolding is_null
is_null_iff null = (λ h. refl, λ h. refl)
is_null_iff (object fs) = (λ h. cc h, λ h. cc h)
is_null_iff (boolean b) = (λ h. cc h, λ h. cc h)
is_null_iff (integer n) = (λ h. cc h, λ h. cc h)
is_null_iff (float x) = (λ h. cc h, λ h. cc h)
is_null_iff (string s) = (λ h. cc h, λ h. cc h)
is_null_iff (array vs) = (λ h. cc h, λ h. cc h)

pub equals_text_iff : (s : Text) (v : Json) → (equals_text s v ≡ true) ↔ (v ≡ string s)
unfolding equals_text
equals_text_iff s (string t) =
    (λ h. ap string ((text_eq_iff t s).0 h), λ h. (text_eq_iff t s).1 (cc h))
equals_text_iff s null = (λ h. cc h, λ h. cc h)
equals_text_iff s (object fs) = (λ h. cc h, λ h. cc h)
equals_text_iff s (boolean b) = (λ h. cc h, λ h. cc h)
equals_text_iff s (integer n) = (λ h. cc h, λ h. cc h)
equals_text_iff s (float x) = (λ h. cc h, λ h. cc h)
equals_text_iff s (array vs) = (λ h. cc h, λ h. cc h)

-- ===== src/Tap/Tests.antt =====
-- A nested credential.
use python_yamp.Prelude.{
  String, ◌≡◌, refl, ◌↔◌, [], ◌∷◌, char_eq, nat_eq, string_eq, option_eq, pair_eq, int_eq, pos,
}
use python_yamp.Json.{Value, str, num, dict, list}
use python_yamp.Tap.{redact, redact_fields, redact_items}
use python_yamp.Tap.Masking.{Masked, redact_lem}

abbrev same_text : String → String
same_text s = s

abbrev with_token : Value
with_token =
    dict (("id", num (pos 1)) ∷ ("params", list (dict (("token", str "t0p") ∷ []) ∷ [])) ∷ [])

redact_lem_example :
    Masked same_text (redact same_text with_token)
    × (Masked same_text with_token ↔ (redact same_text with_token ≡ with_token))
redact_lem_example = redact_lem same_text with_token

redacted :
    redact same_text with_token
    ≡ dict (("id", num (pos 1)) ∷ ("params", list (dict (("token", str "***") ∷ []) ∷ [])) ∷ [])
unfolding redact redact_fields redact_items
redacted = refl

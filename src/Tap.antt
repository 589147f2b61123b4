-- ===== src/Tap.antt =====
-- yamp/tap.py: the redaction of a message before it is shown. `str.lower` is the argument `lower`.
pub mod Masking
mod Tests
use python_yamp.Prelude.{
  Bool, true, false, String, Option, none, some, List, [], ◌∷◌, if◌then◌else◌, elem, ◌==◌, char_eq,
  nat_eq, string_eq, option_eq, pair_eq, int_eq,
}
use python_yamp.Prelude.Dict.{get}
use python_yamp.Json.{
  Value, null, bool, num, str, arr, obj, Items, Fields, end, field, nil, cons, Message, entries,
  dict, get_value,
}

abbrev pub mask : String
mask = "***"

abbrev pub sensitive_keys : List String
sensitive_keys =
    "authorization" ∷ "token" ∷ "secret" ∷ "password" ∷ "apikey" ∷ "api_key" ∷ "credential"
    ∷ "claims" ∷ []

module _ (lower : String → String) where
  abbrev pub is_sensitive : String → Bool
  is_sensitive key = elem (lower key) sensitive_keys

  unfoldable mutual
    pub redact : Value → Value
    redact null = null
    redact (bool b) = bool b
    redact (num n) = num n
    redact (str s) = str s
    redact (arr vs) = arr (redact_items vs)
    redact (obj fs) = obj (redact_fields fs)

    pub redact_items : Items → Items
    redact_items nil = nil
    redact_items (cons v vs) = cons (redact v) (redact_items vs)

    pub redact_fields : Fields → Fields
    redact_fields end = end
    redact_fields (field k v fs) =
        let inside = redact v in
        field k (if is_sensitive k then str mask else inside) (redact_fields fs)

  abbrev pub member : Value → String → Value
  member (obj fs) key = get_value (entries fs) key
  member _ key = null

  unfoldable pub capture : String → Value → Message
  capture direction message =
      ("direction", str direction)
      ∷ ("method", member message "method")
      ∷ ("id", member message "id")
      ∷ ("message", redact message)
      ∷ []

-- ===== src/Variants.antt =====
-- yamp/variants.py: the variant that a request selects, and those that all backends offer.
pub mod Cursors
use Prim.Native.String.{◌++◌ as append}
use python_yamp.Prelude.{
  String, Bool, false, Option, none, some, List, [], ◌∷◌, map, all, keep, elem, char_eq, nat_eq,
  string_eq, option_eq, pair_eq, int_eq,
}
use python_yamp.Prelude.Dict.{Dict}
use python_yamp.Prelude.Text.{strip_prefix}
use python_yamp.Json.{
  Value, null, str, arr, Message, items, dict, get_value, dict_or_empty, as_str, as_dict,
}

abbrev pub extension_id : String
extension_id = "io.modelcontextprotocol/server-variants"

abbrev pub server_variant_meta_key : String
server_variant_meta_key = "io.modelcontextprotocol/server-variant"

unfoldable pub selected_variant : Value → Option String
selected_variant params =
    as_str
      (get_value (dict_or_empty (get_value (dict_or_empty params) "_meta")) server_variant_meta_key)

abbrev pub list_of : Value → Option (List Value)
list_of (arr vs) = some (items vs)
list_of _ = none

-- `_payload`: the declared variants of some capabilities, if they have the extension
unfoldable pub payload : Message → Option (List Value)
payload caps = list_of (
    get_value (dict_or_empty (get_value (dict_or_empty (get_value caps "extensions")) extension_id))
      "availableVariants")

-- the ids of the entries that are dicts with a text under `id`
unfoldable pub ids_of : List Value → List String
ids_of [] = []
ids_of (v ∷ vs) =
    let rest = ids_of vs in
    elim (as_str (get_value (dict_or_empty v) "id")) [ none ↦ rest | some s ↦ s ∷ rest ]

unfoldable pub available_variants : Message → List String
available_variants caps = elim (payload caps) [ none ↦ [] | some vs ↦ ids_of vs ]

-- the declared lists that are not empty
unfoldable pub supporting : List Message → List (List Value)
supporting [] = []
supporting (c ∷ cs) =
    let rest = supporting cs in
    elim (payload c) [ none ↦ rest | some [] ↦ rest | some (v ∷ vs) ↦ (v ∷ vs) ∷ rest ]

abbrev pub in_all : List (List Value) → Option String → Bool
in_all lists none = false
in_all lists (some s) = all (λ vs. elem s (ids_of vs)) lists

-- an id that is a list or a dict, which raises there, is left out
abbrev pub offered_by_all : List (List Value) → Value → Bool
offered_by_all lists v = in_all lists (as_str (get_value (dict_or_empty v) "id"))

abbrev pub common_variants : List (List Value) → List Value
common_variants [] = []
common_variants (first ∷ lists) = keep (offered_by_all (first ∷ lists)) first

unfoldable pub compose_variants : List Message → List Value
compose_variants backend_caps = common_variants (supporting backend_caps)

abbrev pub or_null : Option String → Value
or_null none = null
or_null (some s) = str s

unfoldable pub mismatch_data : Option String → Option String → Message
mismatch_data cursor_variant requested_variant =
    ("cursorVariant", or_null cursor_variant) ∷ ("requestedVariant", or_null requested_variant) ∷ []

-- The composite cursor. The hexadecimal digits of the UTF-8 of a JSON text are the standard library's:
-- `hexed` writes a body, and `unhexed` reads one, `none` where it raises.
abbrev pub cursor_prefix : String
cursor_prefix = "yv1:"

abbrev pub str_values : Dict String String → Message
str_values = map (λ e. (e.0, str e.1))

abbrev pub cursor_body : Option String → Dict String String → Message
cursor_body variant cursors = ("c", dict (str_values cursors)) ∷ ("v", or_null variant) ∷ []

unfoldable pub bind_cursor : (Message → String) → Option String → Dict String String → String
bind_cursor hexed variant cursors = append cursor_prefix (hexed (cursor_body variant cursors))

-- the entries that are texts
unfoldable pub texts_of : Message → Dict String String
texts_of [] = []
texts_of ((k, str s) ∷ m) = (k, s) ∷ texts_of m
texts_of ((k, _) ∷ m) = texts_of m

abbrev pub cursor_of : Message → Option Message → Option (Option String × Dict String String)
cursor_of body none = none
cursor_of body (some cursors) = some (as_str (get_value body "v"), texts_of cursors)

abbrev pub read_body : Option Message → Option (Option String × Dict String String)
read_body none = none
read_body (some body) = cursor_of body (as_dict (get_value body "c"))

abbrev pub unprefixed :
    (String → Option Value) → Option String → Option (Option String × Dict String String)
unprefixed unhexed none = none
unprefixed unhexed (some digits) = elim (unhexed digits) [
  | none ↦ none
  | some payload ↦ read_body (as_dict payload)
]

abbrev pub text_cursor :
    (String → Option Value) → Option String → Option (Option String × Dict String String)
text_cursor unhexed none = none
text_cursor unhexed (some cursor) = unprefixed unhexed (strip_prefix cursor_prefix cursor)

unfoldable pub resolve_cursor :
    (String → Option Value) → Value → Option (Option String × Dict String String)
resolve_cursor unhexed cursor = text_cursor unhexed (as_str cursor)

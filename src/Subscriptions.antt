-- ===== src/Subscriptions.antt =====
-- yamp/subscriptions.py: resource subscriptions under the backend's identifier, and the registry.
pub mod Registry
mod Tests
use python_yamp.Prelude.{
  ℕ, zero, suc, ◌+◌, ◌-◌, ◌*◌, ◌≤◌, ◌<◌, String, ◌≡◌, refl, sym, ap, ◌∙◌, subst, ◌≢◌, ◌↔◌, ◌⊎◌, inl,
  inr, Bool, true, false, not, ◌&&◌, ◌||◌, Option, none, some, List, [], ◌∷◌, ◌++◌, map, arith,
  eq_iff, eq_refl, ltb, leb, nat_beq, if◌then◌else◌, is_some, Bool-cases, Option-cases, length, all,
  any, take, keep, length-append, All, All-append, Eq, ◌==◌, beq_refl, elem, nat_eq, string_eq,
  option_eq, pair_eq, ℤ, pos, negsuc, pos_part, neg_part, ◌+ℤ◌, ◌≤ℤ◌, ltb_ℤ, leb_ℤ, int_eq,
}
use python_yamp.Prelude.Dict.{
  Dict, get, has, insert, remove, update, get_or, get-insert, get-remove, get-insert_self, keys,
  values, dict_laws,
}
use python_yamp.Json.{
  Value, null, bool, num, str, arr, obj, Items, nil, cons, Fields, end, field, Message, entries,
  of_entries, items, of_items, entries-of_entries, dict, list, get_value, dict_or_empty, as_str,
  as_dict,
}
use python_yamp.Namespace.{prefix_uri}
use python_yamp.Tasks.{prefix_param}

abbrev pub subscribe_method : String
subscribe_method = "resources/subscribe"

abbrev pub unsubscribe_method : String
unsubscribe_method = "resources/unsubscribe"

abbrev pub updated_method : String
updated_method = "notifications/resources/updated"

unfoldable pub is_subscribe_method : Value → Bool
is_subscribe_method (str m) = m == subscribe_method || m == unsubscribe_method
is_subscribe_method _ = false

unfoldable pub updated_notification : String → Message
updated_notification uri =
    ("jsonrpc", str "2.0")
    ∷ ("method", str updated_method)
    ∷ ("params", dict (("uri", str uri) ∷ []))
    ∷ []

unfoldable pub namespace_updated : Message → String → Message
namespace_updated message backend_id =
    prefix_param "uri" prefix_uri backend_id message (get_value message "params")

-- the set of subscribed URIs, as a list that holds each once
pub record Subscriptions : Type 0 where
  pub uris : List String

abbrev pub no_subscriptions : Subscriptions
no_subscriptions = record { uris = [] }

abbrev pub discard : String → List String → List String
discard uri [] = []
discard uri (u ∷ us) = elim (u == uri) [ true ↦ us | false ↦ u ∷ discard uri us ]

unfoldable pub subscribe : String → Subscriptions → Subscriptions
subscribe uri s = if elem uri s.uris then s else record { uris = uri ∷ s.uris }

unfoldable pub unsubscribe : String → Subscriptions → Subscriptions × Bool
unsubscribe uri s =
    if elem uri s.uris then (record { uris = discard uri s.uris }, true) else (s, false)

unfoldable pub contains : String → Subscriptions → Bool
contains uri s = elem uri s.uris

unfoldable pub count : Subscriptions → ℕ
count s = length s.uris

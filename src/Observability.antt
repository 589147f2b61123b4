-- ===== src/Observability.antt =====
-- yamp/observability.py: the hops a message has taken, and the trace context.
pub mod Hops
mod Tests
use Prim.Native.String.{◌++◌ as append}
use python_yamp.Prelude.{
  ℕ, zero, suc, ◌+◌, ◌-◌, ◌*◌, ◌≤◌, ◌<◌, String, ◌≡◌, refl, sym, ap, ◌∙◌, subst, ◌≢◌, ◌↔◌, ◌⊎◌, inl,
  inr, Bool, true, false, not, ◌&&◌, ◌||◌, Option, none, some, List, [], ◌∷◌, ◌++◌, map, arith,
  eq_iff, eq_refl, ltb, leb, nat_beq, if◌then◌else◌, is_some, Bool-cases, Option-cases, length, all,
  any, take, keep, length-append, All, All-append, Eq, ◌==◌, beq_refl, elem, nat_eq, string_eq,
  option_eq, pair_eq, ℤ, pos, negsuc, pos_part, neg_part, ◌+ℤ◌, ◌≤ℤ◌, ltb_ℤ, leb_ℤ, int_eq,
}
use python_yamp.Prelude.Dict.{
  Dict, get, has, insert, remove, update, get_or, get-insert, get-remove, get-insert_self, keys,
  values, dict_laws,
}
use python_yamp.Json.{
  Value, null, bool, num, str, arr, obj, Items, nil, cons, Fields, end, field, Message, entries,
  of_entries, items, of_items, entries-of_entries, dict, list, get_value, dict_or_empty, as_str,
  as_dict,
}

abbrev pub proxy_hops_key : String
proxy_hops_key = "io.modelcontextprotocol/proxy-hops"

abbrev pub traceparent : String
traceparent = "traceparent"

unfoldable pub proxy_hop : String → Value
proxy_hop mode = dict (
    ("name", str "yamp")
    ∷ ("mode", str mode)
    ∷ ("version", str "0.0.0")
    ∷ ("layers", list (num (pos 1) ∷ num (pos 2) ∷ num (pos 3) ∷ num (pos 4) ∷ num (pos 5) ∷ []))
    ∷ [])

-- the hops of a `_meta`: list(meta.get(PROXY_HOPS_KEY, [])), `none` where it is no list
abbrev pub hops_of : Option Value → Option (List Value)
hops_of none = some []
hops_of (some (arr vs)) = some (items vs)
hops_of (some _) = none

unfoldable pub append_hop : Message → String → Option Message
append_hop meta mode = elim (hops_of (get meta proxy_hops_key)) [
  | none ↦ none
  | some hops ↦ some (insert meta proxy_hops_key (list (hops ++ (proxy_hop mode ∷ []))))
]

unfoldable pub make_traceparent : String → String → String
make_traceparent trace_id span_id =
    append "00-" (append trace_id (append "-" (append span_id "-01")))

-- `new_ids` is what the source of ids gives when it is asked
unfoldable pub ensure_trace_context : Message → String × String → Message
ensure_trace_context meta new_ids =
    if has meta traceparent
    then meta
    else insert meta traceparent (str (make_traceparent new_ids.0 new_ids.1))

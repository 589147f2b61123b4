-- ===== src/Resilience/Managed.antt =====
-- `ResilientRouter` of yamp/resilience.py. A channel's answer to a request is an argument, `none` where
-- it raises, and so are the times at which a backend's breaker is asked and told the outcome.
pub mod Surface
pub mod Calls
mod Tests
use Prim.Native.String.{◌++◌ as append}
use python_yamp.Prelude.{
  ℕ, zero, suc, ◌+◌, ◌-◌, ◌*◌, ◌≤◌, ◌<◌, String, ◌≡◌, refl, sym, ap, ◌∙◌, subst, ◌≢◌, ◌↔◌, ◌⊎◌, inl,
  inr, Bool, true, false, not, ◌&&◌, ◌||◌, Option, none, some, List, [], ◌∷◌, ◌++◌, map, arith,
  eq_iff, eq_refl, ltb, leb, nat_beq, if◌then◌else◌, is_some, Bool-cases, Option-cases,
  some_injective, length, all, any, take, keep, length-append, All, All-append, Eq, ◌==◌, beq_refl,
  elem, int_beq_iff, nat_eq, string_eq, option_eq, pair_eq, ℤ, pos, negsuc, pos_part, neg_part,
  ◌+ℤ◌, ◌≤ℤ◌, ltb_ℤ, leb_ℤ, int_eq,
}
use python_yamp.Prelude.Dict.{
  Dict, get, has, insert, remove, update, get_or, get-insert, get-remove, get-insert_self, keys,
  values, dict_laws,
}
use python_yamp.Json.{
  Value, null, bool, num, str, arr, obj, Items, nil, cons, Fields, end, field, Message, entries,
  of_entries, items, of_items, entries-of_entries, items-of_items, dict, list, get_value,
  dict_or_empty, as_str, as_dict,
}
use python_yamp.Jsonrpc.{result, error, notification, invalid_params, internal_error}
use python_yamp.Namespace.{prefix, split}
use python_yamp.Pool.{sort_by}
use python_yamp.Resilience.Breaker.{CircuitBreaker, allow, record_success, record_failure}

abbrev pub server_not_available : ℤ
server_not_available = negsuc 32002

abbrev pub proxy_partial_key : String
proxy_partial_key = "io.modelcontextprotocol/proxy-partial"

-- set(xs), each element once
unfoldable pub distinct : List String → List String
distinct [] = []
distinct (x ∷ xs) = let rest = distinct xs in if elem x xs then rest else x ∷ rest

unfoldable pub partial_meta : List String → String → Message
partial_meta unavailable reason =
    (
      proxy_partial_key,
      dict (
          ("unavailable_backends", list (map str (sort_by (λ s. s) (distinct unavailable))))
          ∷ ("reason", str reason)
          ∷ []),
    )
    ∷ []

pub record ManagedBackend : Type 0 where
  pub id : String
  pub breaker : CircuitBreaker

-- the times at which a breaker is asked and told
pub record Times : Type 0 where
  pub asked : ℕ
  pub told : ℕ

abbrev pub with_breaker : ManagedBackend → CircuitBreaker → ManagedBackend
with_breaker b c = record { id = b.id; breaker = c }

-- The backend after an attempt, and the response if there is one.
abbrev pub attempt :
    Times → Option Message → ManagedBackend → Bool → ManagedBackend × Option Message
attempt t answer b false = (b, none)
attempt t none b true = (with_breaker b (record_failure t.told b.breaker), none)
attempt t (some m) b true = (with_breaker b (record_success b.breaker), some m)

-- `allow`, and a request if it lets one through
abbrev pub visit : Times → Option Message → ManagedBackend → ManagedBackend × Option Message
visit t answer b =
    let (c, open_now) = allow t.asked b.breaker in attempt t answer (with_breaker b c) open_now

-- a value in an f-string, where `shown` is `str` of one that is no text
abbrev pub text_of : (Value → String) → Value → String
text_of shown (str s) = s
text_of shown v = shown v

-- An entry of a list of tools, named under the backend; `none` where it has no name.
abbrev pub named : (Value → String) → String → Message → Option Value → Option Value
named shown id tool none = none
named shown id tool (some name) =
    some (dict (insert tool "name" (str (prefix id (text_of shown name)))))

abbrev pub label : (Value → String) → String → Value → Option Value
label shown id (obj fs) = named shown id (entries fs) (get (entries fs) "name")
label shown id _ = none

unfoldable pub labels : (Value → String) → String → List Value → Option (List Value)
labels shown id [] = some []
labels shown id (v ∷ vs) = elim (label shown id v) [
  | none ↦ none
  | some e ↦ elim (labels shown id vs) [ none ↦ none | some es ↦ some (e ∷ es) ]
]

-- response.get("result", {}).get("tools", [])
abbrev pub list_at : Option Value → Option (List Value)
list_at none = some []
list_at (some (arr vs)) = some (items vs)
list_at (some _) = none

abbrev pub tools_in : Option Value → Option (List Value)
tools_in none = some []
tools_in (some (obj fs)) = list_at (get (entries fs) "tools")
tools_in (some _) = none

abbrev pub labelled : (Value → String) → String → Option (List Value) → Option (List Value)
labelled shown id none = none
labelled shown id (some vs) = labels shown id vs

abbrev pub listed : Option (List Value) → Option (List Value × List String)
listed none = none
listed (some vs) = some (vs, [])

-- what one backend adds to the list, and to the unavailable ones
abbrev pub gathered : (Value → String) → String → Option Message → Option (List Value × List String)
gathered shown id none = some ([], id ∷ [])
gathered shown id (some response) = listed (labelled shown id (tools_in (get response "result")))

module _ (times : String → Times) (ask : String → String → Message → Option Message) where
  abbrev pub visited : ManagedBackend → ManagedBackend × Option Message
  visited b = visit (times b.id) (ask b.id "tools/list" []) b

  -- the loop of `tools_list`
  unfoldable pub gather :
      (Value → String)
      → List ManagedBackend
      → Option (List ManagedBackend × (List Value × List String))
  gather shown [] = some ([], ([], []))
  gather shown (b ∷ bs) = elim (gathered shown b.id (visited b).1) [
    | none ↦ none
    | some (vs, out) ↦ elim (gather shown bs) [
      | none ↦ none
      | some (later, (ws, outs)) ↦ some ((visited b).0 ∷ later, (vs ++ ws, out ++ outs))
    ]
  ]

  abbrev pub list_body : List Value → List String → Message
  list_body tools [] = ("tools", list tools) ∷ []
  list_body tools (u ∷ us) =
      ("tools", list tools) ∷ ("_meta", dict (partial_meta (u ∷ us) "circuit_breaker_open")) ∷ []

  unfoldable pub tools_list :
      (Value → String) → Value → List ManagedBackend → Option (List ManagedBackend × Message)
  tools_list shown id bs = elim (gather shown bs) [
    | none ↦ none
    | some (bs', (tools, unavailable)) ↦ some (bs', result id (dict (list_body tools unavailable)))
  ]

  -- the backends with the first one of that id visited, and the response
  abbrev pub first_visited :
      String
      → Message
      → List ManagedBackend
      → Option (List ManagedBackend × (Bool × Option Message))
  first_visited target params [] = none
  first_visited target params (b ∷ bs) =
      if b.id == target
      then (let (b', m) = visit (times b.id) (ask b.id "tools/call" params) b in
          some (b' ∷ bs, ((allow (times b.id).asked b.breaker).1, m)))
      else elim (first_visited target params bs) [ none ↦ none | some (bs', r) ↦ some (b ∷ bs', r) ]

  abbrev pub error_part : Option Value → Value
  error_part none = dict (("code", num internal_error) ∷ ("message", str "backend error") ∷ [])
  error_part (some e) = e

  abbrev pub relay_reply : Value → Message → Message
  relay_reply id response = elim (get response "result") [
    | some v ↦ result id v
    | none ↦ ("jsonrpc", str "2.0") ∷ ("id", id) ∷ ("error", error_part (get response "error")) ∷ []
  ]

  abbrev pub call_answer : Value → String → Bool × Option Message → Message
  call_answer id target (false, m) =
      error id server_not_available (append "backend " (append target " unavailable")) none
  call_answer id target (true, none) =
      error id server_not_available (append "backend " (append target " failed")) none
  call_answer id target (true, some response) = relay_reply id response

  abbrev pub unknown_tool : Value → String → Message
  unknown_tool id name = error id invalid_params (append "unknown tool: " name) none

  abbrev pub call_resolved :
      Value
      → Message
      → String
      → List ManagedBackend
      → Option (String × String)
      → List ManagedBackend × Message
  call_resolved id params name bs none = (bs, unknown_tool id name)
  call_resolved id params name bs (some (target, original)) =
      elim (first_visited target (insert params "name" (str original)) bs) [
        | none ↦ (bs, unknown_tool id name)
        | some (bs', r) ↦ (bs', call_answer id target r)
      ]

  -- `tools_call`, for a request whose `name` is a text
  unfoldable pub tools_call :
      Value → Message → String → List ManagedBackend → List ManagedBackend × Message
  tools_call id params name bs = call_resolved id params name bs (split name)

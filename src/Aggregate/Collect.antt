-- ===== src/Aggregate/Collect.antt =====
-- yamp/router.py: `_collect`, the lists of the backends gathered under the client's names.
use python_yamp.Prelude.{
  String, Bool, not, ◌&&◌, Option, none, some, List, [], ◌∷◌, ◌++◌, map, if◌then◌else◌, keep, ◌==◌,
  char_eq, nat_eq, string_eq, option_eq, pair_eq, ℤ, int_eq,
}
use python_yamp.Prelude.Dict.{Dict, get, has, insert, get_or}
use python_yamp.Json.{
  Value, str, arr, obj, end, Message, items, dict, get_value, dict_or_empty, as_str, as_dict,
}
use python_yamp.Cache.{ListCache, put}
use python_yamp.Routing.{name_matches}
use python_yamp.Collision.{Tool}
use python_yamp.Requests.{Sent}
use python_yamp.Aggregate.{
  CapabilityKind, Host, Query, label, asks, down_ids, params_for, usable_cache, cache_hits,
}

-- The results so far: by backend, with the backends that gave none.
pub record Results : Type 0 where
  pub cache : Option ListCache
  pub results : Dict String Message
  pub unavailable : List String

-- `response.get("result", {})`; `none` where it is no dict, whose `get` raises later
abbrev pub result_of : Message → Option Message
result_of response = as_dict (get_or response "result" (dict []))

abbrev pub put_result : ℤ → Host → String → String → Message → Option ListCache → Option ListCache
put_result now h method id r none = none
put_result now h method id r (some c) = some (put now id method h.principal r c)

abbrev pub with_result : ℤ → Host → String → String → Results → Option Message → Option Results
with_result now h method id s none = none
with_result now h method id s (some r) = some (record {
  cache = put_result now h method id r s.cache;
  results = insert s.results id r;
  unavailable = s.unavailable;
})

-- one response, or `none` for an exception in its place; gives `none` where it is raised
unfoldable pub take_response :
    ℤ → Host → String → String → Option Message → Results → Option Results
take_response now h method id none s =
    if h.resilient then some (record s { unavailable = s.unavailable ++ (id ∷ []) }) else none
take_response now h method id (some response) s = with_result now h method id s (result_of response)

unfoldable pub take_responses :
    ℤ → (String → Option Message) → Host → String → List String → Results → Option Results
take_responses now answers h method [] s = some s
take_responses now answers h method (id ∷ ids) s =
    elim (take_response now h method id (answers id) s) [
      | none ↦ none
      | some s' ↦ take_responses now answers h method ids s'
    ]

-- The tools gathered, and the names that `passthrough` recorded.
pub record Gathered : Type 0 where
  pub tools : List Tool
  pub reverse : Dict String (String × String)

abbrev pub is_passthrough : CapabilityKind → Host → Bool
is_passthrough cap h = (cap.collection == "tools" && h.strategy == "passthrough") && not h.single

abbrev pub set_default :
    Dict String (String × String) → String → String × String → Dict String (String × String)
set_default d k v = if has d k then d else insert d k v

-- the client's name of an item
unfoldable pub labelled : CapabilityKind → Host → String → String → String
labelled cap h id name = if is_passthrough cap h then name else label cap h.single id name

abbrev pub renamed : CapabilityKind → Message → String → Tool
renamed cap item name = record { name = name; tool = insert item cap.field_name (str name) }

-- one item, which is a dict with its name, a text; `none` where it is not, and reading it raises
abbrev pub add_item :
    CapabilityKind
    → Host
    → List String
    → String
    → Message
    → Option String
    → Gathered
    → Option Gathered
add_item cap h patterns id item none g = none
add_item cap h patterns id item (some name) g =
    let tool = renamed cap item (labelled cap h id name) in
    some (record {
      tools =
          if name_matches (labelled cap h id name) patterns
          then g.tools ++ (tool ∷ [])
          else g.tools;
      reverse = if is_passthrough cap h then set_default g.reverse name (id, name) else g.reverse;
    })

unfoldable pub add_items :
    CapabilityKind → Host → List String → String → List Value → Gathered → Option Gathered
add_items cap h patterns id [] g = some g
add_items cap h patterns id (v ∷ vs) g =
    elim (add_item cap h patterns id (dict_or_empty v)
      (as_str (get_value (dict_or_empty v) cap.field_name)) g) [
        | none ↦ none
        | some g' ↦ add_items cap h patterns id vs g'
      ]

-- the items under the collection; `none` where what stands there cannot be looped over
abbrev pub items_of : Option Value → Option (List Value)
items_of none = some []
items_of (some (arr vs)) = some (items vs)
items_of (some (obj end)) = some []
items_of (some (str s)) = if s == "" then some [] else none
items_of (some _) = none

abbrev pub add_listed :
    CapabilityKind → Host → List String → String → Option (List Value) → Gathered → Option Gathered
add_listed cap h patterns id none g = none
add_listed cap h patterns id (some vs) g = add_items cap h patterns id vs g

abbrev pub add_result :
    CapabilityKind → Host → List String → String → Option Message → Gathered → Option Gathered
add_result cap h patterns id none g = some g
add_result cap h patterns id (some r) g =
    add_listed cap h patterns id (items_of (get r cap.collection)) g

unfoldable pub add_results :
    CapabilityKind
    → Host
    → List String
    → Dict String Message
    → List String
    → Gathered
    → Option Gathered
add_results cap h patterns results [] g = some g
add_results cap h patterns results (id ∷ ids) g =
    elim (add_result cap h patterns id (get results id) g) [
      | none ↦ none
      | some g' ↦ add_results cap h patterns results ids g'
    ]

abbrev pub cursor_in : Option Message → Option String
cursor_in none = none
cursor_in (some r) = as_str (get_value r "nextCursor")

unfoldable pub next_cursors : Dict String Message → List String → Dict String String
next_cursors results [] = []
next_cursors results (id ∷ ids) = elim (cursor_in (get results id)) [
  | none ↦ next_cursors results ids
  | some cursor ↦ (id, cursor) ∷ next_cursors results ids
]

-- What `_collect` gives, with the router's cache and reverse map after it, and the requests sent.
pub record Page : Type 0 where
  pub tools : List Tool
  pub unavailable : List String
  pub cursors : Dict String String
  pub host : Host
  pub sent : List Sent

abbrev pub page_of :
    Host → Option ListCache → Results → List String → List Sent → Option Gathered → Option Page
page_of h cache s ids sent none = none
page_of h cache s ids sent (some g) = some (record {
  tools = g.tools;
  unavailable = s.unavailable;
  cursors = next_cursors s.results ids;
  host = record h { cache = cache; reverse = g.reverse };
  sent = sent;
})

-- the router's cache: the one used, or the one it had
abbrev pub cache_after : Option ListCache → Option ListCache → Option ListCache
cache_after none before = before
cache_after (some c) before = some c

abbrev pub gather :
    CapabilityKind → Host → Query → List String → List Sent → Option Results → Option Page
gather cap h q ids sent none = none
gather cap h q ids sent (some s) =
    page_of h (cache_after s.cache h.cache) s ids sent
      (add_results cap h q.patterns s.results ids (record { tools = []; reverse = h.reverse }))

module _ (available : String → Bool) (ask : Sent → Option Message) (now : ℤ) where
  abbrev pub request_to :
      CapabilityKind → Host → Query → Option (Dict String String) → String → Sent
  request_to cap h q restrict id = record {
    backend = id;
    method = cap.list_method;
    params = params_for available ask now h q restrict id;
  }

  -- the backends that are asked or served from the cache
  abbrev pub chosen : Host → Query → Option (Dict String String) → List String
  chosen h q restrict = map (λ b. b.id) (keep (asks available ask now h q restrict) h.backends)

  -- `_collect`, given the backend cursors of the composite one; `none` where it raises
  unfoldable pub collect : CapabilityKind → Host → Query → Option (Dict String String) → Option Page
  collect cap h q restrict =
      let ids = chosen h q restrict in
      let found =
        cache_hits available ask now h cap.list_method ids
          (usable_cache available ask now h q, []) in
      let fetched = keep (λ id. not (has found.1 id)) ids in
      gather cap h q ids (map (request_to cap h q restrict) fetched) (
        take_responses now (λ id. ask (request_to cap h q restrict id)) h cap.list_method fetched
          (record {
            cache = found.0;
            results = found.1;
            unavailable = down_ids available ask now h;
          }))

-- ===== src/Aggregate.antt =====
-- yamp/router.py: list requests, `_collect` and `_aggregate`.
pub mod Tests
pub mod Collect
pub mod Answer
pub mod Items
pub mod Labels
use Prim.Native.String.{◌++◌ as append}
use python_yamp.Prelude.{
  ℕ, String, Bool, true, false, not, ◌&&◌, ◌||◌, Option, none, some, List, [], ◌∷◌, ◌++◌, map,
  if◌then◌else◌, keep, elem, char_eq, nat_eq, string_eq, option_eq, pair_eq, ℤ, negsuc, int_eq,
}
use python_yamp.Prelude.Dict.{Dict, has, insert, get_or}
use python_yamp.Json.{Value, null, str, Message, dict, list}
use python_yamp.Jsonrpc.{error}
use python_yamp.Namespace.{prefix, split, prefix_uri, split_uri}
use python_yamp.Cache.{ListCache, lookup}
use python_yamp.Routing.{backend_selected}
use python_yamp.Handlers.{Registry}
use python_yamp.Variants.{server_variant_meta_key}
use python_yamp.Requests.{Sent}

-- A namespaced kind of capability.
pub record CapabilityKind : Type 0 where
  pub list_method : String
  pub call_method : String
  pub collection : String
  pub field_name : String
  pub prefix_name : String → String → String
  pub split_name : String → Option (String × String)

abbrev pub tools_kind : CapabilityKind
tools_kind = record {
  list_method = "tools/list";
  call_method = "tools/call";
  collection = "tools";
  field_name = "name";
  prefix_name = prefix;
  split_name = split;
}

abbrev pub prompts_kind : CapabilityKind
prompts_kind = record {
  list_method = "prompts/list";
  call_method = "prompts/get";
  collection = "prompts";
  field_name = "name";
  prefix_name = prefix;
  split_name = split;
}

abbrev pub resources_kind : CapabilityKind
resources_kind = record {
  list_method = "resources/list";
  call_method = "resources/read";
  collection = "resources";
  field_name = "uri";
  prefix_name = prefix_uri;
  split_name = split_uri;
}

-- A backend's id and keywords.
pub record Listed : Type 0 where
  pub id : String
  pub keywords : List String

-- What the router holds that these requests use.
pub record Host : Type 0 where
  pub backends : List Listed
  pub single : Bool
  pub resilient : Bool
  pub trace : Bool
  pub cache : Option ListCache
  pub principal : Option String
  pub variants : List String
  pub strategy : String
  pub overrides : Dict String String
  pub priority : List String
  pub reverse : Dict String (String × String)
  pub registry : Registry
  pub disclosing : Bool
  pub threshold : ℕ
  pub directives : Option (ℤ × String)

-- A list request: its filter, a dict, and its cursor and variant.
pub record Query : Type 0 where
  pub words : List String
  pub patterns : List String
  pub filter : Message
  pub cursor : Value
  pub variant : Option String

unfoldable pub effective_variant : List String → Option String → Option String
effective_variant variants (some variant) = some variant
effective_variant [] none = none
effective_variant (v ∷ vs) none = some v

unfoldable pub variant_error : List String → Value → Option String → Option Message
variant_error variants id none = none
variant_error [] id (some variant) =
    some (error id (negsuc 32601) "Server variants not supported" none)
variant_error (v ∷ vs) id (some variant) =
    if elem variant (v ∷ vs)
    then none
    else some (
        error id (negsuc 32601) (append "unknown variant: " variant)
          (some (("availableVariants", list (map (λ s. str s) (v ∷ vs))) ∷ [])))

-- `_label`
unfoldable pub label : CapabilityKind → Bool → String → String → String
label cap single backend_id value = if single then value else cap.prefix_name backend_id value

-- The backends behind their transports: `available` is the answer of a backend's breaker, and `ask` the
-- response to a request, or `none` where it raises; `now` is the clock.
module _ (available : String → Bool) (ask : Sent → Option Message) (now : ℤ) where
  abbrev pub restricted : Option (Dict String String) → String → Bool
  restricted none id = true
  restricted (some cursors) id = has cursors id

  -- whether a list request goes to a backend
  unfoldable pub asks : Host → Query → Option (Dict String String) → Listed → Bool
  asks h q restrict b =
      (not h.resilient || available b.id)
      && (backend_selected b.keywords q.words && restricted restrict b.id)

  unfoldable pub down_ids : Host → List String
  down_ids h = map (λ b. b.id) (keep (λ b. h.resilient && not (available b.id)) h.backends)

  abbrev pub cursor_entry : Host → Query → Option (Dict String String) → String → Message
  cursor_entry h q (some cursors) id = ("cursor", str (get_or cursors id "")) ∷ []
  cursor_entry h q none id = elim q.cursor [
    | null ↦ []
    | cursor ↦ if h.single then ("cursor", cursor) ∷ [] else []
  ]

  abbrev pub variant_entry : Option String → Message
  variant_entry none = []
  variant_entry (some variant) = ("_meta", dict ((server_variant_meta_key, str variant) ∷ [])) ∷ []

  abbrev pub filter_entry : Message → Message
  filter_entry [] = []
  filter_entry (e ∷ es) = ("filter", dict (e ∷ es)) ∷ []

  -- `_params_for`
  unfoldable pub params_for : Host → Query → Option (Dict String String) → String → Message
  params_for h q restrict id =
      filter_entry q.filter
      ++ (variant_entry (effective_variant h.variants q.variant) ++ cursor_entry h q restrict id)

  abbrev pub is_plain : Message → Value → Option String → Bool
  is_plain [] null none = true
  is_plain _ _ _ = false

  -- the cache, where this request may use it
  abbrev pub usable_cache : Host → Query → Option ListCache
  usable_cache h q =
      if is_plain q.filter q.cursor (effective_variant h.variants q.variant) then h.cache else none

  abbrev pub hit :
      String
      → ListCache × Option Message
      → Dict String Message
      → Option ListCache × Dict String Message
  hit id (c, none) hits = (some c, hits)
  hit id (c, some r) hits = (some c, insert hits id r)

  abbrev pub look :
      Host
      → String
      → String
      → Option ListCache × Dict String Message
      → Option ListCache × Dict String Message
  look h method id (none, hits) = (none, hits)
  look h method id (some c, hits) = hit id (lookup now id method h.principal c) hits

  -- the cached results of the backends that are asked
  unfoldable pub cache_hits :
      Host
      → String
      → List String
      → Option ListCache × Dict String Message
      → Option ListCache × Dict String Message
  cache_hits h method [] found = found
  cache_hits h method (id ∷ ids) found = cache_hits h method ids (look h method id found)

-- ===== src/Transparent/Bodies.antt =====
-- yamp/transparent_l2.py: level 2, which reads the bodies, in the stateless mode. Names of tools that are
-- no texts are not modelled.
use Prim.Native.String.{◌++◌ as append}
use python_yamp.Prelude.{
  Bool, true, false, not, ◌&&◌, String, Option, none, some, List, [], ◌∷◌, ◌++◌, if◌then◌else◌,
  ◌==◌, elem, char_eq, nat_eq, string_eq, option_eq, pair_eq, ℤ, negsuc, int_eq,
}
use python_yamp.Prelude.Dict.{insert, get_or}
use python_yamp.Json.{
  Value, null, num, str, arr, obj, Message, entries, items, dict, list, get_value, dict_or_empty,
  as_str, as_dict,
}
use python_yamp.Namespace.{prefix, split}
use python_yamp.Observability.{append_hop}
use python_yamp.Stateless.{
  is_text, StatelessRequest, StatelessResponse, Handled, handled, raised, exchanged,
}

-- A member of the body that is there and differs; two that are no texts are not modelled.
abbrev pub differs : Value → Value → Bool
differs null v = false
differs (str s) (str t) = not (s == t)
differs _ _ = true

abbrev pub name_of : Value → Value
name_of (obj fs) = get_value (entries fs) "name"
name_of _ = null

abbrev pub name_mismatch : StatelessRequest → Message → Option String
name_mismatch r message =
    if is_text r.method "tools/call" && differs (name_of (get_value message "params")) r.name
    then some "name"
    else none

abbrev pub mismatch_in : StatelessRequest → Option Value → Option String
mismatch_in r (some (obj fs)) =
    if differs (get_value (entries fs) "method") r.method
    then some "method"
    else name_mismatch r (entries fs)
mismatch_in r _ = none

-- one tool under the client's name, if the filter keeps it; `none` where it has no name
abbrev pub kept_tool :
    Option (String → Bool) → String → Message → Option String → Option (List Value)
kept_tool tool_filter id tool none = none
kept_tool none id tool (some name) = some (dict (insert tool "name" (str (prefix id name))) ∷ [])
kept_tool (some wanted) id tool (some name) =
    if wanted name then some (dict (insert tool "name" (str (prefix id name))) ∷ []) else some []

abbrev pub joined : Option (List Value) → Option (List Value) → Option (List Value)
joined none later = none
joined (some ts) none = none
joined (some ts) (some us) = some (ts ++ us)

unfoldable pub kept_tools : Option (String → Bool) → String → List Value → Option (List Value)
kept_tools tool_filter id [] = some []
kept_tools tool_filter id (v ∷ vs) =
    joined
      (kept_tool tool_filter id (dict_or_empty v) (as_str (get_value (dict_or_empty v) "name")))
      (kept_tools tool_filter id vs)

-- tools that are no list raise
abbrev pub kept_list : Option (String → Bool) → String → Value → Option (List Value)
kept_list tool_filter id (arr vs) = kept_tools tool_filter id (items vs)
kept_list tool_filter id _ = none

abbrev pub tools_in : Option (String → Bool) → String → Option Value → Option (List Value)
tools_in tool_filter id (some (obj fs)) =
    kept_list tool_filter id (get_or (entries fs) "tools" (list []))
tools_in tool_filter id _ = none

module _ (dumps : Value → String) (loads : String → Option Value)
    (exchange : String → StatelessRequest → Option StatelessResponse) where
  -- the field that disagrees; a body that is no text, or no JSON text of an object, has nothing to check
  unfoldable pub header_body_mismatch : StatelessRequest → Value → Option String
  header_body_mismatch r (str text) = if text == "" then none else mismatch_in r (loads text)
  header_body_mismatch r _ = none

  abbrev pub answer : Value → Message → Handled
  answer meta body = handled [] (record { meta = meta; body = str (dumps (dict body)) })

  abbrev pub refused : Value → ℤ → Value → Handled
  refused meta code message =
      answer meta (("error", dict (("code", num code) ∷ ("message", message) ∷ [])) ∷ [])

  abbrev pub discover_request : Value → StatelessRequest
  discover_request meta = record {
    method = str "server/discover";
    name = null;
    meta = meta;
    body = str "";
  }

  abbrev pub loaded_body : Option StatelessResponse → Option Value
  loaded_body none = none
  loaded_body (some response) = elim (as_str response.body) [ none ↦ none | some text ↦ loads text ]

  abbrev pub with_tools :
      String × StatelessRequest
      → Option (List Value)
      → Option (List Value) × List (String × StatelessRequest)
      → Option (List Value) × List (String × StatelessRequest)
  with_tools asked none later = (none, asked ∷ [])
  with_tools asked (some ts) later = (joined (some ts) later.0, asked ∷ later.1)

  -- the tools of all backends, `none` where it raises, and what was sent
  unfoldable pub discovered :
      Option (String → Bool)
      → Value
      → List String
      → Option (List Value) × List (String × StatelessRequest)
  discovered tool_filter meta [] = (some [], [])
  discovered tool_filter meta (id ∷ ids) =
      let ask = discover_request meta in
      with_tools (id, ask) (tools_in tool_filter id (loaded_body (exchange id ask)))
        (discovered tool_filter meta ids)

  abbrev pub discover_answer :
      Value → Option (List Value) × List (String × StatelessRequest) → Handled
  discover_answer meta (none, sent) = raised sent
  discover_answer meta (some tools, sent) =
      handled sent (record { meta = meta; body = str (dumps (dict (("tools", list tools) ∷ []))) })

  abbrev pub forwarded_call : StatelessRequest → String → StatelessRequest
  forwarded_call r original = record {
    method = str "tools/call";
    name = str original;
    meta = r.meta;
    body = r.body;
  }

  abbrev pub call_resolved :
      List String → StatelessRequest → String → Option (String × String) → Handled
  call_resolved ids r name none = refused r.meta (negsuc 32601) (str (append "unknown tool: " name))
  call_resolved ids r name (some (id, original)) =
      if elem id ids
      then exchanged dumps loads exchange id (forwarded_call r original)
          (exchange id (forwarded_call r original))
      else refused r.meta (negsuc 32601) (str (append "unknown tool: " name))

  -- `_call`; a name that is no text raises (0 and false, which count as the empty text, are not modelled)
  abbrev pub call : List String → StatelessRequest → Value → Handled
  call ids r null = refused r.meta (negsuc 32601) (str "unknown tool: None")
  call ids r (str name) = call_resolved ids r name (split name)
  call ids r _ = raised []

  abbrev pub handle_matched :
      Option (String → Bool) → List String → StatelessRequest → Option String → Handled
  handle_matched tool_filter ids r (some field) =
      refused r.meta (negsuc 32004) (str (append "header/body " (append field " mismatch")))
  handle_matched tool_filter ids r none =
      if is_text r.method "server/discover"
      then discover_answer r.meta (discovered tool_filter r.meta ids)
      else if is_text r.method "tools/call"
      then call ids r r.name
      else refused r.meta (negsuc 32600) r.method

  -- TransparentL2Stateless._handle
  unfoldable pub handle : Option (String → Bool) → List String → StatelessRequest → Handled
  handle tool_filter ids r = handle_matched tool_filter ids r (header_body_mismatch r r.body)

  -- a `_meta` to which no hop can be appended raises
  abbrev pub handle_traced :
      Option (String → Bool) → List String → StatelessRequest → Option Message → Handled
  handle_traced tool_filter ids r none = raised []
  handle_traced tool_filter ids r (some meta) =
      handle tool_filter ids (record r { meta = dict meta })

  abbrev pub hopped : Option Message → Option Message
  hopped none = none
  hopped (some meta) = append_hop meta "transparent"

  -- one message of TransparentL2Stateless.serve, decoded
  unfoldable pub serve_request :
      Option (String → Bool) → List String → Option StatelessRequest → Handled
  serve_request tool_filter ids none = raised []
  serve_request tool_filter ids (some r) = handle_traced tool_filter ids r (hopped (as_dict r.meta))

-- ===== src/Stateless.antt =====
-- yamp/stateless.py: the stateless mode. The JSON texts of the bodies and of the envelopes are the standard
-- library's, `dumps` and `loads`.
mod Tests
pub mod Forwarding
use Prim.Native.String.{◌++◌ as append}
use python_yamp.Prelude.{
  Bool, false, String, Option, none, some, List, [], ◌∷◌, ◌++◌, map, if◌then◌else◌, ◌==◌, elem,
  char_eq, nat_eq, string_eq, option_eq, pair_eq, ℤ, negsuc, int_eq,
}
use python_yamp.Prelude.Dict.{get, insert, get_or}
use python_yamp.Json.{
  Value, null, num, str, arr, obj, Message, entries, items, dict, list, get_value, dict_or_empty,
  as_str, as_dict,
}
use python_yamp.Namespace.{prefix, split}
use python_yamp.Version.{stateless_version, negotiate, unsupported_error_data}
use python_yamp.Forward.{proxy_server_info}

abbrev pub client_info_key : String
client_info_key = "io.modelcontextprotocol/clientInfo"

abbrev pub version_key : String
version_key = "io.modelcontextprotocol/protocolVersion"

-- A request's envelope, whose members are any JSON values.
pub record StatelessRequest : Type 0 where
  pub method : Value
  pub name : Value
  pub meta : Value
  pub body : Value

pub record StatelessResponse : Type 0 where
  pub meta : Value
  pub body : Value

-- `v == text`
abbrev pub is_text : Value → String → Bool
is_text (str s) text = s == text
is_text _ text = false

-- a method in the text of a message; of one that is no text, nothing is written
abbrev pub shown_method : Value → String
shown_method (str s) = s
shown_method _ = ""

unfoldable pub encode_request : StatelessRequest → Value
encode_request r =
    dict (("method", r.method) ∷ ("name", r.name) ∷ ("meta", r.meta) ∷ ("body", r.body) ∷ [])

abbrev pub request_of : Message → Option Value → Option StatelessRequest
request_of m none = none
request_of m (some method) = some (record {
  method = method;
  name = get_value m "name";
  meta = get_or m "meta" (dict []);
  body = get_or m "body" (str "");
})

abbrev pub request_in : Option Message → Option StatelessRequest
request_in none = none
request_in (some m) = request_of m (get m "method")

-- `none` where it raises
unfoldable pub decode_request : Value → Option StatelessRequest
decode_request v = request_in (as_dict v)

unfoldable pub encode_response : StatelessResponse → Value
encode_response r = dict (("meta", r.meta) ∷ ("body", r.body) ∷ [])

abbrev pub response_in : Option Message → Option StatelessResponse
response_in none = none
response_in (some m) =
    some (record { meta = get_or m "meta" (dict []); body = get_or m "body" (str "") })

unfoldable pub decode_response : Value → Option StatelessResponse
decode_response v = response_in (as_dict v)

abbrev pub data_part : Option Message → Message
data_part none = []
data_part (some m) = ("data", dict m) ∷ []

abbrev pub proxy_meta : Message
proxy_meta = (client_info_key, dict proxy_server_info) ∷ []

-- What is sent to a backend, and the response; or it raises.
pub data Handled : Type 0 where
  handled : List (String × StatelessRequest) → StatelessResponse → Handled
  raised : List (String × StatelessRequest) → Handled

module _ (dumps : Value → String) (loads : String → Option Value)
    (exchange : String → StatelessRequest → Option StatelessResponse) where
  unfoldable pub error_body : ℤ → String → Option Message → String
  error_body code message data_ = dumps (
      dict (("error", dict (("code", num code) ∷ ("message", str message) ∷ data_part data_)) ∷ []))

  abbrev pub refused : ℤ → String → Option Message → Handled
  refused code message data_ =
      handled [] (record { meta = dict proxy_meta; body = str (error_body code message data_) })

  abbrev pub requested_of : Value → Option Value
  requested_of (obj fs) = elim (get (entries fs) version_key) [
    | none ↦ none
    | some null ↦ none
    | some v ↦ some v
  ]
  requested_of _ = none

  -- the version that a request runs under; a version that is no text is never served
  abbrev pub negotiated : Option Value → Option String
  negotiated none = negotiate none stateless_version
  negotiated (some (str version)) = negotiate (some version) stateless_version
  negotiated (some _) = none

  -- one tool of a backend under the client's name; `none` where it has none
  abbrev pub renamed_tool : String → Message → Option String → Option Value
  renamed_tool id tool none = none
  renamed_tool id tool (some name) = some (dict (insert tool "name" (str (prefix id name))))

  abbrev add_tool : Option Value → Option (List Value) → Option (List Value)
  add_tool none tools = none
  add_tool (some t) none = none
  add_tool (some t) (some ts) = some (t ∷ ts)

  unfoldable pub renamed_tools : String → List Value → Option (List Value)
  renamed_tools id [] = some []
  renamed_tools id (v ∷ vs) =
      add_tool (renamed_tool id (dict_or_empty v) (as_str (get_value (dict_or_empty v) "name")))
        (renamed_tools id vs)

  abbrev listed : String → Value → Option (List Value)
  listed id (arr vs) = renamed_tools id (items vs)
  listed id _ = none

  abbrev tools_in : String → Option Value → Option (List Value)
  tools_in id (some (obj fs)) = listed id (get_or (entries fs) "tools" (list []))
  tools_in id _ = none

  abbrev body_text : Option StatelessResponse → Option String
  body_text none = none
  body_text (some r) = as_str r.body

  abbrev loaded : Option String → Option Value
  loaded none = none
  loaded (some text) = loads text

  abbrev discover_request : StatelessRequest
  discover_request = record {
    method = str "server/discover";
    name = null;
    meta = dict proxy_meta;
    body = str "";
  }

  abbrev joined : Option (List Value) → Option (List Value) → Option (List Value)
  joined none later = none
  joined (some ts) none = none
  joined (some ts) (some us) = some (ts ++ us)

  unfoldable pub discovered : List String → Option (List Value)
  discovered [] = some []
  discovered (id ∷ ids) =
      joined (tools_in id (loaded (body_text (exchange id discover_request)))) (discovered ids)

  abbrev pub discover_answer : List String → Option (List Value) → Handled
  discover_answer ids none = raised (map (λ id. (id, discover_request)) ids)
  discover_answer ids (some tools) =
      handled (map (λ id. (id, discover_request)) ids)
        (record { meta = dict proxy_meta; body = str (dumps (dict (("tools", list tools) ∷ []))) })

  -- `_discover`
  unfoldable pub discover : List String → Handled
  discover ids = discover_answer ids (discovered ids)

  -- the client's `_meta`, under the proxy's identity and the negotiated version
  unfoldable pub forwarded_meta : Message → String → Message
  forwarded_meta meta version =
      insert (insert meta client_info_key (dict proxy_server_info)) version_key (str version)

  abbrev pub forwarded_request : StatelessRequest → Message → String → String → StatelessRequest
  forwarded_request r meta version original = record {
    method = str "tools/call";
    name = str original;
    meta = dict (forwarded_meta meta version);
    body = r.body;
  }

  abbrev pub exchanged : String → StatelessRequest → Option StatelessResponse → Handled
  exchanged id r none = raised ((id, r) ∷ [])
  exchanged id r (some response) = handled ((id, r) ∷ []) response

  abbrev pub call_resolved :
      List String
      → StatelessRequest
      → String
      → String
      → Option Message
      → Option (String × String)
      → Handled
  call_resolved ids r version name meta none =
      refused (negsuc 32601) (append "unknown tool: " name) none
  call_resolved ids r version name none (some (id, original)) =
      if elem id ids then raised [] else refused (negsuc 32601) (append "unknown tool: " name) none
  call_resolved ids r version name (some meta) (some (id, original)) =
      let sent = forwarded_request r meta version original in
      if elem id ids
      then exchanged id sent (exchange id sent)
      else refused (negsuc 32601) (append "unknown tool: " name) none

  -- `_call`, which reads the name and never the body; a name that is no text raises (0 and false, which
  -- count as the empty text, are not modelled)
  abbrev pub call_by : List String → StatelessRequest → String → Value → Handled
  call_by ids r version null = refused (negsuc 32601) "unknown tool: None" none
  call_by ids r version (str name) = call_resolved ids r version name (as_dict r.meta) (split name)
  call_by ids r version _ = raised []

  unfoldable pub call : List String → StatelessRequest → String → Handled
  call ids r version = call_by ids r version r.name

  -- for a version that is no text, the end of the message and the data are left out
  abbrev pub refused_version : Option Value → Handled
  refused_version (some (str version)) =
      refused (negsuc 32003) (append "unsupported protocol version: " version)
        (some (unsupported_error_data (some version)))
  refused_version _ = refused (negsuc 32003) "unsupported protocol version: " none

  abbrev pub handle_at : List String → StatelessRequest → Option Value → Option String → Handled
  handle_at ids r requested none = refused_version requested
  handle_at ids r requested (some version) =
      if is_text r.method "server/discover"
      then discover ids
      else if is_text r.method "tools/call"
      then call ids r version
      else refused (negsuc 32600) (append "method not routable: " (shown_method r.method)) none

  -- `_handle`
  unfoldable pub handle : List String → StatelessRequest → Handled
  handle ids r = handle_at ids r (requested_of r.meta) (negotiated (requested_of r.meta))

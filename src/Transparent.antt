-- ===== src/Transparent.antt =====
-- yamp/transparent.py: level 1, which reads the headers of an envelope and nothing else. A raw message is
-- its JSON text; the standard library's `dumps` and `loads` are parameters.
pub mod Bodies
pub mod Passing
pub mod Agreement
mod Tests
use python_yamp.Prelude.{
  ℕ, zero, suc, Bool, true, false, not, String, ◌||◌, Option, none, some, List, [], ◌∷◌, ◌++◌,
  if◌then◌else◌, ◌==◌, elem, char_eq, nat_eq, string_eq, option_eq, pair_eq, ℤ, negsuc, int_eq,
}
use python_yamp.Prelude.Dict.{get, insert, get_or}
use python_yamp.Json.{
  Value, null, bool, num, str, arr, obj, Message, entries, items, dict, list, get_value,
  dict_or_empty, as_str, as_dict,
}

-- AllowAll and HeaderPolicy: the methods and the names that are blocked
pub data Policy : Type 0 where
  allow_all : Policy
  header_policy : List String → List String → Policy

-- `value in blocked`; `none` for a value that cannot be hashed
abbrev pub is_blocked : List String → Value → Option Bool
is_blocked blocked (str s) = some (elem s blocked)
is_blocked blocked (arr vs) = none
is_blocked blocked (obj fs) = none
is_blocked blocked _ = some false

abbrev pub negated : Option Bool → Option Bool
negated none = none
negated (some b) = some (not b)

abbrev pub unless_blocked : Option Bool → Option Bool → Option Bool
unless_blocked none by_name = none
unless_blocked (some true) by_name = some false
unless_blocked (some false) by_name = by_name

abbrev pub allow_headers : List String → List String → Option Message → Option Bool
allow_headers methods names none = none
allow_headers methods names (some headers) =
    unless_blocked (is_blocked methods (get_value headers "Mcp-Method"))
      (negated (is_blocked names (get_value headers "Mcp-Name")))

-- `policy.allow(headers)`; `none` where it raises
unfoldable pub allow : Policy → Value → Option Bool
allow allow_all headers = some true
allow (header_policy methods names) headers = allow_headers methods names (as_dict headers)

abbrev pub encode_envelope : (Value → String) → Message → String → String
encode_envelope dumps headers body =
    dumps (dict (("headers", dict headers) ∷ ("body", str body) ∷ []))

abbrev pub headers_in : Option Value → Option Value
headers_in (some (obj fs)) = some (get_or (entries fs) "headers" (dict []))
headers_in _ = none

-- `none` where it raises
abbrev pub peek_headers : (String → Option Value) → String → Option Value
peek_headers loads raw = headers_in (loads raw)

abbrev pub blocked_response : (Value → String) → String
blocked_response dumps = encode_envelope dumps (("Mcp-Status", str "blocked") ∷ []) (
    dumps (
      dict (
        ("error", dict (("code", num (negsuc 32000)) ∷ ("message", str "blocked by policy") ∷ []))
        ∷ [])))

-- What the loop sends to the backend and to the client, the count of blocked messages, and whether it
-- came to the client's end of stream, where it signals its own.
pub record Traffic : Type 0 where
  pub to_backend : List String
  pub to_client : List String
  pub blocked : ℕ
  pub at_end : Bool

abbrev pub quiet : Bool → Traffic
quiet at_end = record { to_backend = []; to_client = []; blocked = 0; at_end = at_end }

module _ (dumps : Value → String) (loads : String → Option Value) (policy : Policy) where
  abbrev pub allowed_by : Option Value → Option Bool
  allowed_by none = none
  allowed_by (some headers) = allow policy headers

  abbrev pub passed : String → Option Bool → Traffic → Traffic
  passed raw none later = quiet false
  passed raw (some true) later = record later { to_backend = raw ∷ later.to_backend }
  passed raw (some false) later = record later {
    to_client = blocked_response dumps ∷ later.to_client;
    blocked = suc later.blocked;
  }

  -- TransparentL1._client_to_backend, on the client's messages up to its end of stream
  unfoldable pub client_to_backend : List String → Traffic
  client_to_backend [] = quiet true
  client_to_backend (raw ∷ rest) =
      passed raw (allowed_by (peek_headers loads raw)) (client_to_backend rest)

-- TransparentL1._backend_to_client: what it sends to the client
unfoldable pub backend_to_client : List String → List String
backend_to_client [] = []
backend_to_client (raw ∷ rest) = raw ∷ backend_to_client rest

-- ===== src/Forward.antt =====
-- yamp/forward.py: the two handshakes of the stateful proxy.
use python_yamp.Prelude.{
  String, Bool, false, Option, none, some, List, [], ◌∷◌, if◌then◌else◌, ◌==◌, char_eq, nat_eq,
  string_eq, option_eq, pair_eq, ℤ, pos, negsuc, int_eq,
}
use python_yamp.Prelude.Dict.{get, get_or}
use python_yamp.Json.{Value, null, num, str, obj, Message, entries, dict, get_value}
use python_yamp.Jsonrpc.{method_of, request, notification, result, error}

-- jsonrpc.INVALID_REQUEST
abbrev pub invalid_request : ℤ
invalid_request = negsuc 32599

abbrev pub proxy_protocol_version : String
proxy_protocol_version = "2025-06-18"

abbrev pub proxy_server_info : Message
proxy_server_info = ("name", str "yamp") ∷ ("version", str "0.0.0") ∷ []

pub data Sending : Type 0 where
  to_client to_backend : Message → Sending

-- The client closed first, the handshake failed (HandshakeError), or it is complete: then the
-- backend's own identity is kept.
pub data Handshake : Type 0 where
  closed : Handshake
  failed : List Sending → Handshake
  completed : Value → List Sending → Handshake

abbrev pub initialize_request : Message
initialize_request = request (num (pos 1)) "initialize" (
    some (
      ("protocolVersion", str proxy_protocol_version)
      ∷ ("capabilities", dict [])
      ∷ ("clientInfo", dict proxy_server_info)
      ∷ []))

-- m.get(k, {}) where m is a dict; `none` where it is not
abbrev pub field_of : Option Value → String → Option Value
field_of none k = some (dict [])
field_of (some (obj fs)) k = some (get_or (entries fs) k (dict []))
field_of (some _) k = none

abbrev pub identity_of : Option Value → Value
identity_of (some (obj fs)) = get_value (entries fs) "serverInfo"
identity_of _ = null

abbrev pub composed_reply : Value → Value → Message
composed_reply id caps = result id (
    dict (
      ("protocolVersion", str proxy_protocol_version)
      ∷ ("capabilities", caps)
      ∷ ("serverInfo", dict proxy_server_info)
      ∷ []))

abbrev pub greeted : Value → Value → Option Value → Handshake
greeted id identity none = failed (to_backend initialize_request ∷ [])
greeted id identity (some caps) = completed identity (
    to_backend initialize_request
    ∷ to_backend (notification "notifications/initialized" none)
    ∷ to_client (composed_reply id caps)
    ∷ [])

-- `_backend_handshake` and what follows it
unfoldable pub backend_handshake : Value → Option Message → Handshake
backend_handshake id none = failed (to_backend initialize_request ∷ [])
backend_handshake id (some reply) =
    greeted id (identity_of (get reply "result")) (field_of (get reply "result") "capabilities")

abbrev pub is_initialize : Value → Bool
is_initialize (str m) = m == "initialize"
is_initialize _ = false

-- `_handshake`, from the first message of the client and the backend's reply
unfoldable pub handshake : Option Message → Option Message → Handshake
handshake none reply = closed
handshake (some init) reply =
    if is_initialize (method_of init)
    then backend_handshake (get_value init "id") reply
    else failed
        (to_client (error (get_value init "id") invalid_request "expected initialize" none) ∷ [])

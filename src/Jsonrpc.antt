-- ===== src/Jsonrpc.antt =====
-- yamp/jsonrpc.py: JSON-RPC messages and the codes of the JSON-RPC layer.
use python_yamp.Prelude.{String, ℤ, negsuc, [], ◌∷◌, Option, none, some, string_eq}
use python_yamp.Json.{Value, num, str, Message, dict, get_value}

abbrev pub invalid_request : ℤ
invalid_request = negsuc 32599

abbrev pub method_not_found : ℤ
method_not_found = negsuc 32600

abbrev pub invalid_params : ℤ
invalid_params = negsuc 32601

abbrev pub internal_error : ℤ
internal_error = negsuc 32602

-- what an optional argument adds
abbrev pub optional_entry : String → Option Message → Message
optional_entry k none = []
optional_entry k (some m) = (k, dict m) ∷ []

unfoldable pub request : Value → String → Option Message → Message
request id method params =
    ("jsonrpc", str "2.0") ∷ ("id", id) ∷ ("method", str method) ∷ optional_entry "params" params

unfoldable pub notification : String → Option Message → Message
notification method params =
    ("jsonrpc", str "2.0") ∷ ("method", str method) ∷ optional_entry "params" params

unfoldable pub result : Value → Value → Message
result id value = ("jsonrpc", str "2.0") ∷ ("id", id) ∷ ("result", value) ∷ []

unfoldable pub error : Value → ℤ → String → Option Message → Message
error id code message data_ =
    ("jsonrpc", str "2.0")
    ∷ ("id", id)
    ∷ ("error", dict (("code", num code) ∷ ("message", str message) ∷ optional_entry "data" data_))
    ∷ []

unfoldable pub error_response : Value → Message → Message
error_response id error_body = ("jsonrpc", str "2.0") ∷ ("id", id) ∷ ("error", dict error_body) ∷ []

-- message.get("method")
abbrev pub method_of : Message → Value
method_of message = get_value message "method"

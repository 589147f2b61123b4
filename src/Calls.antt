-- ===== src/Calls.antt =====
-- yamp/router.py: `_route_call`, a call of a tool, a prompt or a resource.
pub mod Tests
pub mod Dispatch
pub mod Reach
pub mod Blocking
pub mod Local
pub mod Answers
use python_yamp.Prelude.{
  ℕ, String, Bool, ◌&&◌, Option, none, some, List, [], ◌∷◌, map, if◌then◌else◌, ◌==◌, elem, char_eq,
  nat_eq, string_eq, option_eq, pair_eq, ℤ, negsuc, int_eq,
}
use python_yamp.Prelude.Dict.{Dict, insert, get_or}
use python_yamp.Json.{
  Value, null, str, obj, Message, entries, dict, get_value, dict_or_empty, as_dict,
}
use python_yamp.Jsonrpc.{result, error_response}
use python_yamp.Errors.{error_object}
use python_yamp.Handlers.{LocalTool, Handler}
use python_yamp.Server.{exceeds_output_cap}
use python_yamp.Schema.{validate_call_args, validate_call_result}
use python_yamp.Tasks.{is_task_result, namespace_task_id}
use python_yamp.Filters.{Context, Filter, Outcome, forward, run}
use python_yamp.Filters.Interests.{message_context}
use python_yamp.Callout.{Codec}
use python_yamp.Requests.{Sent, trace_result}
use python_yamp.Aggregate.{CapabilityKind, Host, Query}

-- The records that the audit log is given, and the requests sent, with the response; or it raises.
pub data Called : Type 0 where
  answered : Host → List Message → List Sent → Message → Called
  raised : List Message → List Sent → Called

-- the router's settings for calls
pub record Settings : Type 0 where
  pub validate_schemas : Bool
  pub output_limit : ℤ
  pub chain : Option (List Filter)

-- What is taken from the libraries: base64 and the like, the schema library's verdict, the length of an
-- encoded result, `json.dumps` of a list of names, `str.lower`, and the random trace ids.
pub record Libraries : Type 0 where
  pub codec : Codec
  pub schema : Message → Value → Option Bool
  pub size : Value → ℕ
  pub dumps : List String → String
  pub lower : String → String
  pub trace_ids : String × String

abbrev pub params_in : Message → Message
params_in message = dict_or_empty (get_value message "params")

abbrev pub id_of : Message → Value
id_of message = get_value message "id"

-- params.get(field, "")
abbrev pub value_in : CapabilityKind → Message → Value
value_in cap message = get_or (params_in message) cap.field_name (str "")

abbrev pub run_in : List Filter → Message → Option Context → Option Outcome
run_in fs message none = none
run_in fs message (some context) = run fs "request" context message

abbrev pub filtered_by : Libraries → Message → Option (List Filter) → Option Outcome
filtered_by libs message none = some (forward message)
filtered_by libs message (some fs) = run_in fs message (message_context libs.codec message "c2u")

-- `filter_chain.run`; `none` where it raises
unfoldable pub filtered : Libraries → Settings → Message → Option Outcome
filtered libs settings message = filtered_by libs message settings.chain

-- a schema that is no dict is not modelled, and counts as absent
abbrev pub schema_at : Message → String → Option Message
schema_at tool k = as_dict (get_value tool k)

-- the definition of a tool by its own name
unfoldable pub find_tool : String → List LocalTool → Option Message
find_tool name [] = none
find_tool name (t ∷ ts) = if t.name == name then some t.tool else find_tool name ts

abbrev pub args_error : Libraries → Option Message → Value → Option Message
args_error libs none arguments = none
args_error libs (some tool) arguments =
    validate_call_args libs.schema (schema_at tool "inputSchema") arguments

abbrev pub result_error : Libraries → Option Message → Message → Option Message
result_error libs none r = none
result_error libs (some tool) r = validate_call_result libs.schema (schema_at tool "outputSchema") r

abbrev pub traced_call : Host → List Message → List Sent → Value → Option Value → Called
traced_call h records sent id none = raised records sent
traced_call h records sent id (some v) = answered h records sent (result id v)

-- the answer from a local handler's result, a dict
unfoldable pub local_result :
    Libraries → Settings → Host → Value → Option Message → Message → Called
local_result libs settings h id tool r = elim (result_error libs tool r) [
  | some e ↦ answered h [] [] (error_response id e)
  | none ↦
      if exceeds_output_cap libs.size (dict r) settings.output_limit
      then answered h [] [] (
          error_response id (error_object (negsuc 32602) (some "server output exceeds size limit")))
      else traced_call h [] [] id (trace_result h.trace (dict r))
]

abbrev pub handled : Libraries → Settings → Host → Value → Option Message → Option Message → Called
handled libs settings h id tool none = raised [] []
handled libs settings h id tool (some r) = local_result libs settings h id tool r

abbrev pub dict_in : Option Value → Option Message
dict_in none = none
dict_in (some v) = as_dict v

-- A call that a local handler serves; a result that is no dict counts as raising.
unfoldable pub serve_local : Libraries → Settings → Host → Value → Handler → String → Value → Called
serve_local libs settings h id handler name arguments =
    let tool = if settings.validate_schemas then find_tool name handler.tools else none in
    elim (args_error libs tool arguments) [
      | some e ↦ answered h [] [] (error_response id e)
      | none ↦ handled libs settings h id tool (dict_in (handler.call_tool name arguments))
    ]

abbrev pub inverse_of : Dict String String → Dict String String
inverse_of overrides = turned overrides []
  where
    turned : Dict String String → Dict String String → Dict String String
    turned [] acc = acc
    turned ((namespaced, exposed) ∷ d) acc = turned d (insert acc exposed namespaced)

abbrev pub backend_ids : Host → List String
backend_ids h = map (λ b. b.id) h.backends

-- the backend and its own name, where the backend is the router's
abbrev pub held : Host → Option (String × String) → Option (String × String)
held h none = none
held h (some (backend_id, original)) =
    if elem backend_id (backend_ids h) then some (backend_id, original) else none

abbrev pub empty_query : Query
empty_query = record { words = []; patterns = []; filter = []; cursor = null; variant = none }

abbrev pub answer_result : CapabilityKind → String → Value → Option Value
answer_result cap backend_id (obj fs) =
    if cap.call_method == "tools/call" && is_task_result (obj fs)
    then some (dict (namespace_task_id (entries fs) backend_id))
    else some (obj fs)
answer_result cap backend_id v = some v

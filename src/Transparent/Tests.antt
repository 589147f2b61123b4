-- ===== src/Transparent/Tests.antt =====
-- Three messages at level 1, and a call at level 2.
use python_yamp.Prelude.{
  String, ◌≡◌, not, nat_eq, string_eq, option_eq, pair_eq, int_eq, char_eq, length, map, keep, refl,
  true, Option, none, some, List, [], ◌∷◌,
}
use python_yamp.Prelude.Dict.{get}
use python_yamp.Prelude.Text.{contains as in_text}
use python_yamp.Json.{Value, str, Message, dict}
use python_yamp.Namespace.{prefix}
use python_yamp.Stateless.{StatelessRequest, StatelessResponse}
use python_yamp.Transparent.{Policy, header_policy, allow, blocked_response, client_to_backend}
use python_yamp.Transparent.Passing.{allowed, Readable, passes_allowed}
use python_yamp.Transparent.Agreement.{Body}

abbrev no_text : Value → String
no_text v = ""

-- a raw message that is the name of its method
abbrev with_method : String → Option Value
with_method raw = some (dict (("headers", dict (("Mcp-Method", str raw) ∷ [])) ∷ []))

abbrev no_calls : Policy
no_calls = header_policy ("tools/call" ∷ []) []

abbrev three_raws : List String
three_raws = "tools/list" ∷ "tools/call" ∷ "ping" ∷ []

passes_allowed_example :
    ((client_to_backend no_text with_method no_calls three_raws).to_backend
      ≡ keep (allowed no_text with_method no_calls) three_raws)
    × ((client_to_backend no_text with_method no_calls three_raws).to_client
        ≡ map
            (λ raw. blocked_response no_text)
            (keep (λ raw. not (allowed no_text with_method no_calls raw)) three_raws))
    × ((client_to_backend no_text with_method no_calls three_raws).blocked
        ≡ length (keep (λ raw. not (allowed no_text with_method no_calls raw)) three_raws))
    × ((client_to_backend no_text with_method no_calls three_raws).at_end ≡ true)
unfolding Readable allow get
passes_allowed_example =
    passes_allowed no_text with_method no_calls three_raws (refl, (refl, (refl, _)))

passed_on :
    (client_to_backend no_text with_method no_calls three_raws).to_backend
    ≡ "tools/list" ∷ "ping" ∷ []
unfolding client_to_backend allow get
passed_on = refl

abbrev call_params : Message
call_params = ("name", str (prefix "git" "status")) ∷ []

abbrev call_message : Message
call_message = ("method", str "tools/call") ∷ ("params", dict call_params) ∷ []

abbrev tools_call : String
tools_call = "tools/call"

abbrev loads_call : String → Option Value
loads_call text = some (dict call_message)

abbrev no_answer : String → StatelessRequest → Option StatelessResponse
no_answer id r = none

abbrev status_request : StatelessRequest
status_request = record {
  method = str "tools/call";
  name = str (prefix "git" "status");
  meta = dict [];
  body = str "a call";
}

abbrev call_body : Body loads_call (str "a call") "tools/call" (prefix "git" "status")
unfolding get
call_body = record {
  text = "a call";
  message = call_message;
  params = call_params;
  is_text = refl;
  is_full = refl;
  is_object = refl;
  has_method = refl;
  has_params = refl;
  has_name = refl;
}

-- ===== src/Calls/Tests.antt =====
-- A call of the tool that a router of two backends listed.
use python_yamp.Prelude.{
  ◌≡◌, refl, true, false, none, some, [], ◌∷◌, char_eq, nat_eq, string_eq, option_eq, pair_eq, pos,
  int_eq,
}
use python_yamp.Prelude.Dict.{get, insert}
use python_yamp.Json.{num, str, Message, dict}
use python_yamp.Prelude.Text.{contains as in_text, strip_prefix}
use python_yamp.Namespace.{all_id_chars, valid_backend_id, prefix}
use python_yamp.Handlers.{handler_for}
use python_yamp.Callout.Tests.{tiny_codec}
use python_yamp.Filters.{Context, Filter}
use python_yamp.Filters.Interests.{mimes_of, message_context}
use python_yamp.Content.{dict_or_none, blocks}
use python_yamp.Requests.{trace_request}
use python_yamp.Aggregate.{tools_kind}
use python_yamp.Aggregate.Tests.{two_backends, up, one_tool}
use python_yamp.Calls.{Settings, Libraries, params_in}
use python_yamp.Calls.Dispatch.{route_call}
use python_yamp.Calls.Reach.{sent_by, one_call, route_call_reaches}
use python_yamp.Calls.Blocking.{broken_filter_stops}

abbrev pub tiny_libraries : Libraries
tiny_libraries = record {
  codec = tiny_codec;
  schema = λ s v. some true;
  size = λ v. 1;
  dumps = λ names. "[]";
  lower = λ s. s;
  trace_ids = ("a", "b");
}

abbrev pub no_filters : Settings
no_filters = record { validate_schemas = false; output_limit = pos 9; chain = none }

abbrev pub status_call : Message
status_call =
    ("id", num (pos 4))
    ∷ ("method", str "tools/call")
    ∷ ("params", dict (("name", str (prefix "git" "status")) ∷ []))
    ∷ []

route_call_reaches_example :
    sent_by
      (route_call tiny_libraries up one_tool (pos 0) no_filters tools_kind two_backends status_call)
    ≡ one_call "git"
        (trace_request false ("a", "b") (insert (params_in status_call) "name" (str "status")))
unfolding valid_backend_id all_id_chars in_text strip_prefix get handler_for prefix
route_call_reaches_example =
    route_call_reaches tiny_libraries up one_tool (pos 0) no_filters two_backends status_call "git"
      "status" refl (refl, refl, refl) refl refl (λ h. cc) refl refl refl refl refl

abbrev broken : Filter
broken = record { failure_policy = "fail_closed"; cares = λ c. true; evaluate = λ hook m. none }

abbrev guarded : Settings
guarded = record no_filters { chain = some (broken ∷ []) }

abbrev call_context : Context
call_context = record {
  method = some "tools/call";
  direction = "c2u";
  tool = some (prefix "git" "status");
  types = [];
}

broken_filter_stops_example :
    sent_by
      (route_call tiny_libraries up one_tool (pos 0) guarded tools_kind two_backends status_call)
    ≡ []
unfolding message_context blocks mimes_of dict_or_none get
broken_filter_stops_example =
    broken_filter_stops tiny_libraries up one_tool (pos 0) guarded tools_kind two_backends
      status_call [] [] broken call_context refl refl refl (λ m. refl) refl

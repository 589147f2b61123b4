-- ===== src/Resilience/Managed/Tests.antt =====
-- Two backends, one of which is tripped.
use python_yamp.Prelude.{
  String, ◌≡◌, refl, Option, none, some, List, [], ◌∷◌, map, nat_eq, string_eq, option_eq, pair_eq,
  pos, int_eq,
}
use python_yamp.Prelude.Dict.{get, insert}
use python_yamp.Prelude.Text.{strip_prefix, partition}
use python_yamp.Json.{Value, num, str, Message, dict, list}
use python_yamp.Jsonrpc.{result}
use python_yamp.Namespace.{prefix, split}
use python_yamp.Resilience.Breaker.{closed, open_, CircuitBreaker, poll, allow, record_success}
use python_yamp.Resilience.Managed.{
  ManagedBackend, Times, labels, gather, list_body, tools_list, tools_call,
}
use python_yamp.Resilience.Managed.Surface.{
  all_tools, all_missing, partial_entry, backend_after, tools_list_lem,
}
use python_yamp.Resilience.Managed.Calls.{others, tools_call_lem}

abbrev healthy : CircuitBreaker
healthy = record { threshold = 3; reset = 30; stored = closed; failures = 0; opened_at = 0 }

abbrev tripped : CircuitBreaker
tripped = record { threshold = 3; reset = 30; stored = open_; failures = 3; opened_at = 10 }

abbrev managed : List ManagedBackend
managed = record { id = "a"; breaker = healthy } ∷ record { id = "b"; breaker = tripped } ∷ []

abbrev at_twenty : String → Times
at_twenty b = record { asked = 20; told = 21 }

abbrev one_tool : String → String → Message → Option Message
one_tool b method params =
    some (("result", dict (("tools", list (dict (("name", str "find") ∷ []) ∷ [])) ∷ [])) ∷ [])

abbrev tools_answer : Message
tools_answer = result (num (pos 1)) (
    dict (
      list_body at_twenty one_tool (dict (("name", str (prefix "a" "find")) ∷ []) ∷ []) ("b" ∷ [])))

-- of a value that is no text
abbrev no_text : Value → String
no_text v = ""

tools_list_lem_example :
    (tools_answer
      ≡ result (num (pos 1)) (
          dict (
            ("tools", list (all_tools at_twenty one_tool no_text managed))
            ∷ partial_entry at_twenty one_tool no_text
                (all_missing at_twenty one_tool no_text managed))))
    × (managed ≡ map (backend_after at_twenty one_tool no_text) managed)
unfolding tools_list gather labels allow poll record_success get insert
tools_list_lem_example =
    tools_list_lem at_twenty one_tool no_text (num (pos 1)) managed managed tools_answer refl

tools_call_lem_example :
    (others "a" (tools_call at_twenty one_tool (num (pos 2)) [] "a__find" managed).0
      ≡ others "a" managed)
    × (get (tools_call at_twenty one_tool (num (pos 2)) [] "a__find" managed).1 "id"
        ≡ some (num (pos 2)))
unfolding split partition strip_prefix
tools_call_lem_example =
    tools_call_lem at_twenty one_tool (num (pos 2)) [] "a__find" "a" "find" managed refl

abbrev no_answer : String → String → Message → Option Message
no_answer b method params = none

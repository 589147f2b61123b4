-- ===== src/Calls/Dispatch.antt =====
-- yamp/router.py: `_route_call`, from the filter chain to the backend's answer.
use Prim.Native.String.{◌++◌ as append}
use python_yamp.Calls.{
  Called, answered, raised, Settings, Libraries, params_in, id_of, value_in, filtered, traced_call,
  serve_local, inverse_of, held, empty_query, answer_result,
}
use python_yamp.Prelude.{
  String, Bool, false, not, ◌&&◌, Option, none, some, List, [], ◌∷◌, ◌++◌, map, if◌then◌else◌, ◌==◌,
  char_eq, nat_eq, string_eq, option_eq, pair_eq, ℤ, negsuc, int_eq,
}
use python_yamp.Prelude.Dict.{get, has, insert, get_or}
use python_yamp.Json.{Value, str, obj, Message, entries, dict, list, as_str}
use python_yamp.Jsonrpc.{error}
use python_yamp.Namespace.{split}
use python_yamp.Signing.{attestation_record, outcome_record}
use python_yamp.Capability.{NamedTool, search_tool, search_tools}
use python_yamp.Collision.{original}
use python_yamp.Handlers.{Handler, handler_for}
use python_yamp.Filters.{Outcome, forward, block}
use python_yamp.Requests.{
  server_not_available, Sent, trace_request, trace_result, shaped, error_part,
}
use python_yamp.Aggregate.{CapabilityKind, tools_kind, Listed, Host}
use python_yamp.Aggregate.Collect.{Page, collect}
use python_yamp.Aggregate.Answer.{as_named}

module _ (libs : Libraries) (available : String → Bool) (ask : Sent → Option Message)
    (now : ℤ) where
  abbrev pub call_error : Host → List Message → List Sent → Value → ℤ → String → Called
  call_error h records sent id code text = answered h records sent (error id code text none)

  abbrev pub shaped_call : Host → List Sent → List Message → Value → Option Value → Called
  shaped_call h sent told id none = raised told sent
  shaped_call h sent told id (some v) = traced_call h told sent id (trace_result h.trace v)

  -- the backend's result, or its error
  abbrev pub relayed_call :
      CapabilityKind
      → Host
      → List Sent
      → List Message
      → Value
      → String
      → Message
      → Option Value
      → Called
  relayed_call cap h sent told id backend_id response (some r) =
      shaped_call h sent told id (answer_result cap backend_id r)
  relayed_call cap h sent told id backend_id response none =
      answered h told sent
        (("jsonrpc", str "2.0") ∷ ("id", id) ∷ ("error", error_part (get response "error")) ∷ [])

  -- the answer of the backend, for the client; `none` is a request that failed
  unfoldable pub relay_call :
      CapabilityKind
      → Host
      → List Sent
      → List Message
      → Value
      → Value
      → String
      → Option Message
      → Called
  relay_call cap h sent records id value backend_id none =
      if h.resilient
      then call_error h (records ++ (outcome_record cap.call_method value false ∷ [])) sent id
          server_not_available (append "backend call failed: " backend_id)
      else raised records sent
  relay_call cap h sent records id value backend_id (some response) =
      relayed_call cap h sent
        (records ++ (outcome_record cap.call_method value (has response "result") ∷ [])) id
        backend_id response (get response "result")

  abbrev pub principal_of : Host → String
  principal_of h = elim h.principal [
    | none ↦ "anonymous"
    | some principal ↦ if principal == "" then "anonymous" else principal
  ]

  abbrev pub send_call :
      CapabilityKind → Host → List Sent → Value → Value → String → Option Message → Called
  send_call cap h before id value backend_id none = raised [] before
  send_call cap h before id value backend_id (some params) =
      let sent : Sent = record {
        backend = backend_id;
        method = cap.call_method;
        params = params;
      } in
      relay_call cap h (before ++ (sent ∷ []))
        (attestation_record (principal_of h) cap.call_method value ∷ []) id value backend_id
        (ask sent)

  -- from `backend = …` on; `before` are the requests that warmed the reverse map
  unfoldable pub call_backend :
      CapabilityKind → Host → List Sent → Message → Value → String → Value → Called
  call_backend cap h before message value backend_id original =
      if h.resilient && not (available backend_id)
      then call_error h [] before (id_of message) server_not_available
          (append "backend unavailable: " backend_id)
      else send_call cap h before (id_of message) value backend_id (
          trace_request h.trace libs.trace_ids (insert (params_in message) cap.field_name original))

  abbrev pub resolved_call :
      CapabilityKind → Host → List Sent → Message → String → Option (String × String) → Called
  resolved_call cap h before message name none =
      call_error h [] before (id_of message) (negsuc 32601)
        (append "unknown " (append cap.field_name (append ": " name)))
  resolved_call cap h before message name (some (backend_id, original)) =
      call_backend cap h before message (str name) backend_id (str original)

  abbrev pub warmed : CapabilityKind → Message → String → Option Page → Called
  warmed cap message name none = raised [] []
  warmed cap message name (some page) =
      resolved_call cap page.host page.sent message name
        (held page.host (get page.host.reverse name))

  -- through the reverse map, which a list of the tools fills first where it lacks the name
  abbrev pub passed_through : CapabilityKind → Host → Message → String → Called
  passed_through cap h message name =
      if has h.reverse name
      then resolved_call cap h [] message name (held h (get h.reverse name))
      else warmed cap message name (collect available ask now tools_kind h empty_query none)

  -- next(iter(self._backends)): raises where there is none
  abbrev pub only_backend : CapabilityKind → Host → Message → Value → List Listed → Called
  only_backend cap h message value [] = raised [] []
  only_backend cap h message value (b ∷ bs) = call_backend cap h [] message value b.id value

  abbrev pub is_tools_call : CapabilityKind → Bool
  is_tools_call cap = cap.call_method == "tools/call"

  -- a name that is a text, where the router has several backends
  unfoldable pub route_name : CapabilityKind → Host → Message → String → Called
  route_name cap h message name =
      let manual =
        resolved_call cap h [] message name
          (held h (split (get_or (inverse_of h.overrides) name name))) in
      let through = passed_through cap h message name in
      let plain = resolved_call cap h [] message name (held h (cap.split_name name)) in
      if is_tools_call cap && h.strategy == "manual"
      then manual
      else if is_tools_call cap && h.strategy == "passthrough"
      then through
      else plain

  abbrev pub route_text : CapabilityKind → Host → Message → String → Called
  route_text cap h message name =
      if h.single
      then only_backend cap h message (str name) h.backends
      else route_name cap h message name

  -- a name that is no text: only a single backend that is asked for no tool gets it; else `split` raises
  abbrev pub route_other : CapabilityKind → Host → Message → Value → Called
  route_other cap h message value =
      if h.single && not (is_tools_call cap)
      then only_backend cap h message value h.backends
      else raised [] []

  abbrev pub with_name : String → Option Handler → Option (Handler × String)
  with_name original none = none
  with_name original (some handler) = some (handler, original)

  abbrev pub handler_of : Host → Option (String × String) → Option (Handler × String)
  handler_of h none = none
  handler_of h (some (id, original)) = with_name original (handler_for id h.registry)

  -- the local handler of a tool call's name
  abbrev pub local_of : CapabilityKind → Host → String → Option (Handler × String)
  local_of cap h name = if is_tools_call cap then handler_of h (cap.split_name name) else none

  abbrev pub search_answer : Message → Page → Option (List NamedTool) → Called
  search_answer message page none = raised [] page.sent
  search_answer message page (some tools) = traced_call page.host [] page.sent (id_of message) (
      trace_result page.host.trace (
        dict (
          (
            "content",
            list (
                dict
                  (("type", str "text") ∷ ("text", str (libs.dumps (map (λ t. t.name) tools))) ∷ [])
                ∷ []),
          )
          ∷ [])))

  -- the text of the search; `none` where `arguments` or it has the wrong type
  abbrev pub query_in : Value → Option String
  query_in (obj fs) = as_str (get_or (entries fs) "query" (str ""))
  query_in _ = none

  abbrev pub search_page : Message → Option String → Option Page → Called
  search_page message query none = raised [] []
  search_page message none (some page) = raised [] page.sent
  search_page message (some query) (some page) =
      search_answer message page (search_tools libs.lower query (map as_named page.tools))

  -- the search tool, which the proxy serves
  unfoldable pub serve_search : Host → Message → Called
  serve_search h message =
      search_page message (query_in (get_or (params_in message) "arguments" (dict [])))
        (collect available ask now tools_kind h empty_query none)

  abbrev pub dispatch :
      Settings → CapabilityKind → Host → Message → String → Option (Handler × String) → Called
  dispatch settings cap h message name (some (handler, original)) =
      serve_local libs settings h (id_of message) handler original
        (get_or (params_in message) "arguments" (dict []))
  dispatch settings cap h message name none = route_text cap h message name

  abbrev pub call_named : Settings → CapabilityKind → Host → Message → Value → Called
  call_named settings cap h message (str name) =
      if h.disclosing && (is_tools_call cap && name == search_tool)
      then serve_search h message
      else dispatch settings cap h message name (local_of cap h name)
  call_named settings cap h message value = route_other cap h message value

  abbrev pub after_chain : Settings → CapabilityKind → Host → Message → Option Outcome → Called
  after_chain settings cap h message none = raised [] []
  after_chain settings cap h message (some (block response quarantined)) =
      answered h (outcome_record cap.call_method (value_in cap message) false ∷ []) [] response
  after_chain settings cap h message (some (forward shaped)) =
      call_named settings cap h shaped (value_in cap shaped)

  -- `_route_call`
  unfoldable pub route_call : Settings → CapabilityKind → Host → Message → Called
  route_call settings cap h message =
      after_chain settings cap h message (filtered libs settings message)

-- ===== src/Calls/Reach.antt =====
-- A call of a name that a list showed reaches the backend that listed it, and no other.
use python_yamp.Prelude.{
  String, ◌≡◌, refl, ap, ◌∙◌, ◌≢◌, Bool, true, false, not, ◌&&◌, Option, none, some, List, [], ◌∷◌,
  ◌++◌, if◌then◌else◌, ◌==◌, elem, char_eq, nat_eq, string_eq, option_eq, pair_eq, ℤ, int_eq,
}
use python_yamp.Prelude.Dict.{get, has, insert}
use python_yamp.Json.{Value, str, Message}
use python_yamp.Namespace.{valid_backend_id, prefix}
use python_yamp.Namespace.Names.{ends_low, split-prefix}
use python_yamp.Capability.{search_tool}
use python_yamp.Signing.{outcome_record}
use python_yamp.Requests.{server_not_available, Sent, trace_request, trace_result}
use Prim.Native.String.{◌++◌ as append}
use python_yamp.Calls.{
  Called, answered, raised, Settings, Libraries, params_in, id_of, value_in, filtered_by, filtered,
  traced_call, backend_ids, answer_result,
}
use python_yamp.Handlers.{handler_for}
use python_yamp.Aggregate.{CapabilityKind, tools_kind, Host}
use python_yamp.Calls.Dispatch.{
  call_error, shaped_call, relayed_call, relay_call, send_call, call_backend, route_name,
  route_text, with_name, handler_of, local_of, serve_search, dispatch, call_named, after_chain,
  route_call,
}

abbrev pub sent_by : Called → List Sent
sent_by (answered h records sent response) = sent
sent_by (raised records sent) = sent

abbrev pub records_by : Called → List Message
records_by (answered h records sent response) = records
records_by (raised records sent) = records

-- the requests of a call: one, unless the tracing raises
abbrev pub one_call : String → Option Message → List Sent
one_call backend_id none = []
one_call backend_id (some params) =
    record { backend = backend_id; method = "tools/call"; params = params } ∷ []

module _ (libs : Libraries) (available : String → Bool) (ask : Sent → Option Message)
    (now : ℤ) where
  traced_call-sent :
      (h : Host) (records : List Message) (sent : List Sent) (id : Value) (v : Option Value)
      → sent_by (traced_call h records sent id v) ≡ sent
  traced_call-sent h records sent id none = refl
  traced_call-sent h records sent id (some v) = refl

  shaped_call-sent :
      (h : Host) (sent : List Sent) (told : List Message) (id : Value) (v : Option Value)
      → sent_by (shaped_call libs available ask now h sent told id v) ≡ sent
  shaped_call-sent h sent told id none = refl
  shaped_call-sent h sent told id (some v) =
      traced_call-sent h told sent id (trace_result h.trace v)

  relay_call-sent :
      (cap : CapabilityKind) (h : Host) (sent : List Sent) (records : List Message)
      (id value : Value) (backend_id : String) (answer : Option Message)
      → sent_by (relay_call libs available ask now cap h sent records id value backend_id answer)
        ≡ sent
  unfolding relay_call
  relay_call-sent cap h sent records id value backend_id none = go h.resilient
    where
      go :
          (b : Bool)
          → sent_by (
              if b
              then call_error libs available ask now h
                  (records ++ (outcome_record cap.call_method value false ∷ []))
                  sent
                  id
                  server_not_available
                  (append "backend call failed: " backend_id)
              else raised records sent)
            ≡ sent
      go true = refl
      go false = refl
  relay_call-sent cap h sent records id value backend_id (some response) =
      go (get response "result")
    where
      go :
          (o : Option Value)
          → sent_by (
              relayed_call libs available ask now cap h sent
                (records ++ (outcome_record cap.call_method value (has response "result") ∷ []))
                id
                backend_id
                response
                o)
            ≡ sent
      go none = refl
      go (some r) = shaped_call-sent h sent _ id (answer_result cap backend_id r)

  send_call-sent :
      (h : Host) (id value : Value) (backend_id : String) (params : Option Message)
      → sent_by (send_call libs available ask now tools_kind h [] id value backend_id params)
        ≡ one_call backend_id params
  send_call-sent h id value backend_id none = refl
  send_call-sent h id value backend_id (some params) =
      relay_call-sent tools_kind h (one_call backend_id (some params)) _ id value backend_id _

  call_backend-sent :
      (h : Host) (message : Message) (value original : Value) (backend_id : String)
      → (h.resilient && not (available backend_id)) ≡ false
      → sent_by
          (call_backend libs available ask now tools_kind h [] message value backend_id original)
        ≡ one_call backend_id
            (trace_request h.trace libs.trace_ids (insert (params_in message) "name" original))
  unfolding call_backend
  call_backend-sent h message value original backend_id up = rw up (
      send_call-sent h (id_of message) value backend_id
        (trace_request h.trace libs.trace_ids (insert (params_in message) "name" original)))

  -- the strategies that keep the backend's identifier in every name
  abbrev pub Prefixed : Host → Type 0
  Prefixed h =
      (h.single ≡ false)
      × ((h.strategy == "manual") ≡ false)
      × ((h.strategy == "passthrough") ≡ false)

  route_name-sent :
      (h : Host) (message : Message) (b original : String)
      → Prefixed h
      → valid_backend_id b ≡ true
      → ends_low b ≡ false
      → original ≢ ""
      → elem b (backend_ids h) ≡ true
      → (h.resilient && not (available b)) ≡ false
      → sent_by (route_text libs available ask now tools_kind h message (prefix b original))
        ≡ one_call b (
            trace_request h.trace libs.trace_ids (insert (params_in message) "name" (str original)))
  unfolding route_name
  route_name-sent h message b original (several, plain, kept) v l full known up =
      simp (several, plain, kept, split-prefix b original v l full, known)
        (call_backend-sent h message (str (prefix b original)) (str original) b up)

  -- Under a strategy that keeps the backends' identifiers in the names, a call of the tool that a client knows as
  -- `prefix b original`, which is no local handler's and not the search tool that a disclosing router serves, is
  -- sent to the backend `b` alone, under its own name for the tool, if the router may ask it and the
  -- tracing does not raise; where no filter is set, for a valid identifier that does not end in "_" and a
  -- name that is not empty.
  pub route_call_reaches :
      (settings : Settings) (h : Host) (message : Message) (b original : String)
      → settings.chain ≡ none
      → Prefixed h
      → valid_backend_id b ≡ true
      → ends_low b ≡ false
      → original ≢ ""
      → elem b (backend_ids h) ≡ true
      → handler_for b h.registry ≡ none
      → (h.disclosing && (prefix b original == search_tool)) ≡ false
      → value_in tools_kind message ≡ str (prefix b original)
      → (h.resilient && not (available b)) ≡ false
      → sent_by (route_call libs available ask now settings tools_kind h message)
        ≡ one_call b (
            trace_request h.trace libs.trace_ids (insert (params_in message) "name" (str original)))
  unfolding route_call filtered
  route_call_reaches settings h message b original open_chain prefixed v l full known own shown
        named up =
      let name = prefix b original in
      ap
        (λ c. sent_by (
          after_chain libs available ask now settings tools_kind h message
            (filtered_by libs message c)))
        open_chain
      ∙ ap (λ x. sent_by (call_named libs available ask now settings tools_kind h message x)) named
      ∙ ap
          (λ x. sent_by (
            if x
            then serve_search libs available ask now h message
            else dispatch libs available ask now settings tools_kind h message name
                (local_of libs available ask now tools_kind h name)))
          shown
      ∙ ap
          (λ o. sent_by (
            dispatch libs available ask now settings tools_kind h message name
              (handler_of libs available ask now h o)))
          (split-prefix b original v l full)
      ∙ ap
          (λ o. sent_by (
            dispatch libs available ask now settings tools_kind h message name
              (with_name libs available ask now original o)))
          own
      ∙ route_name-sent h message b original prefixed v l full known up

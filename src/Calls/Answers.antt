-- ===== src/Calls/Answers.antt =====
-- Every answer to a call carries the call's id, whatever the filters did to it.
use python_yamp.Prelude.{
  String, refl, subst, Bool, ◌&&◌, Option, none, some, List, [], ◌∷◌, if◌then◌else◌, ◌==◌, char_eq,
  nat_eq, string_eq, option_eq, pair_eq, ℤ, int_eq,
}
use python_yamp.Prelude.Dict.{get, has, get_or}
use python_yamp.Json.{Value, null, bool, num, str, arr, obj, Message}
use python_yamp.Filters.{
  Verdict, reduced, Outcome, forward, block, chain_outcome, Context, Filter, verdicts, run,
}
use python_yamp.Filters.Interests.{message_context}
use python_yamp.Handlers.{Handler}
use python_yamp.Capability.{NamedTool}
use python_yamp.Collision.{original}
use python_yamp.Calls.{
  Settings, Libraries, id_of, value_in, run_in, filtered_by, filtered, inverse_of, held,
  empty_query, answer_result,
}
use python_yamp.Namespace.{split}
use python_yamp.Aggregate.{CapabilityKind, tools_kind, Listed, Host}
use python_yamp.Aggregate.Collect.{Page, collect}
use python_yamp.Calls.Dispatch.{
  shaped_call, relayed_call, relay_call, send_call, call_backend, resolved_call, warmed,
  passed_through, only_backend, is_tools_call, route_name, route_other, search_answer, search_page,
  serve_search, dispatch, call_named, after_chain, route_call,
}
use python_yamp.Requests.{Sent, trace_result}
use python_yamp.Calls.Local.{
  AnswersTo, OfRequest, outcome_from-OfRequest, traced_call-AnswersTo, raised-AnswersTo,
  error-AnswersTo, choose-AnswersTo, serve_local-AnswersTo,
}

module _ (libs : Libraries) (available : String → Bool) (ask : Sent → Option Message)
    (now : ℤ) where
  shaped_call-AnswersTo :
      (h : Host) (sent : List Sent) (told : List Message) (id : Value) (v : Option Value)
      → AnswersTo id (shaped_call libs available ask now h sent told id v)
  shaped_call-AnswersTo h sent told id none = raised-AnswersTo id told sent
  shaped_call-AnswersTo h sent told id (some v) =
      traced_call-AnswersTo h told sent id (trace_result h.trace v)

  relayed_call-AnswersTo :
      (cap : CapabilityKind) (h : Host) (sent : List Sent) (told : List Message) (id : Value)
      (b : String) (response : Message) (o : Option Value)
      → AnswersTo id (relayed_call libs available ask now cap h sent told id b response o)
  unfolding get AnswersTo
  relayed_call-AnswersTo cap h sent told id b response none = refl
  relayed_call-AnswersTo cap h sent told id b response (some r) =
      shaped_call-AnswersTo h sent told id (answer_result cap b r)

  relay_call-AnswersTo :
      (cap : CapabilityKind) (h : Host) (sent : List Sent) (records : List Message)
      (id value : Value) (b : String) (answer : Option Message)
      → AnswersTo id (relay_call libs available ask now cap h sent records id value b answer)
  unfolding relay_call
  relay_call-AnswersTo cap h sent records id value b none =
      choose-AnswersTo id h.resilient _ _ (error-AnswersTo h _ sent id _ _)
        (raised-AnswersTo id records sent)
  relay_call-AnswersTo cap h sent records id value b (some response) =
      relayed_call-AnswersTo cap h sent _ id b response (get response "result")

  send_call-AnswersTo :
      (cap : CapabilityKind) (h : Host) (before : List Sent) (id value : Value) (b : String)
      (params : Option Message)
      → AnswersTo id (send_call libs available ask now cap h before id value b params)
  send_call-AnswersTo cap h before id value b none = raised-AnswersTo id [] before
  send_call-AnswersTo cap h before id value b (some params) =
      relay_call-AnswersTo cap h _ _ id value b _

  call_backend-AnswersTo :
      (cap : CapabilityKind) (h : Host) (before : List Sent) (message : Message) (value : Value)
      (b : String) (original : Value)
      → AnswersTo
          (id_of message)
          (call_backend libs available ask now cap h before message value b original)
  unfolding call_backend
  call_backend-AnswersTo cap h before message value b original =
      choose-AnswersTo (id_of message) _ _ _ (error-AnswersTo h [] before (id_of message) _ _)
        (send_call-AnswersTo cap h before (id_of message) value b _)

  resolved_call-AnswersTo :
      (cap : CapabilityKind) (h : Host) (before : List Sent) (message : Message) (name : String)
      (o : Option (String × String))
      → AnswersTo (id_of message) (resolved_call libs available ask now cap h before message name o)
  resolved_call-AnswersTo cap h before message name none =
      error-AnswersTo h [] before (id_of message) _ _
  resolved_call-AnswersTo cap h before message name (some (b, original)) =
      call_backend-AnswersTo cap h before message (str name) b (str original)

  warmed-AnswersTo :
      (cap : CapabilityKind) (message : Message) (name : String) (page : Option Page)
      → AnswersTo (id_of message) (warmed libs available ask now cap message name page)
  warmed-AnswersTo cap message name none = raised-AnswersTo (id_of message) [] []
  warmed-AnswersTo cap message name (some page) =
      resolved_call-AnswersTo cap page.host page.sent message name _

  passed_through-AnswersTo :
      (cap : CapabilityKind) (h : Host) (message : Message) (name : String)
      → AnswersTo (id_of message) (passed_through libs available ask now cap h message name)
  passed_through-AnswersTo cap h message name =
      choose-AnswersTo (id_of message) (has h.reverse name)
        (resolved_call libs available ask now cap h [] message name (held h (get h.reverse name)))
        (warmed libs available ask now cap message name
          (collect available ask now tools_kind h empty_query none))
        (resolved_call-AnswersTo cap h [] message name (held h (get h.reverse name)))
        (warmed-AnswersTo cap message name
          (collect available ask now tools_kind h empty_query none))

  only_backend-AnswersTo :
      (cap : CapabilityKind) (h : Host) (message : Message) (value : Value) (bs : List Listed)
      → AnswersTo (id_of message) (only_backend libs available ask now cap h message value bs)
  only_backend-AnswersTo cap h message value [] = raised-AnswersTo (id_of message) [] []
  only_backend-AnswersTo cap h message value (b ∷ bs) =
      call_backend-AnswersTo cap h [] message value b.id value

  route_name-AnswersTo :
      (cap : CapabilityKind) (h : Host) (message : Message) (name : String)
      → AnswersTo (id_of message) (route_name libs available ask now cap h message name)
  unfolding route_name
  route_name-AnswersTo cap h message name =
      let id = id_of message in
      let resolved = λ (o : Option (String × String)).
        resolved_call libs available ask now cap h [] message name o in
      choose-AnswersTo id (is_tools_call libs available ask now cap && h.strategy == "manual")
        (resolved (held h (split (get_or (inverse_of h.overrides) name name))))
        (if is_tools_call libs available ask now cap && h.strategy == "passthrough"
          then passed_through libs available ask now cap h message name
          else resolved (held h (cap.split_name name)))
        (resolved_call-AnswersTo cap h [] message name
          (held h (split (get_or (inverse_of h.overrides) name name))))
        (choose-AnswersTo id
          (is_tools_call libs available ask now cap && h.strategy == "passthrough")
          (passed_through libs available ask now cap h message name)
          (resolved (held h (cap.split_name name))) (passed_through-AnswersTo cap h message name)
          (resolved_call-AnswersTo cap h [] message name (held h (cap.split_name name))))

  dispatch-AnswersTo :
      (settings : Settings) (cap : CapabilityKind) (h : Host) (message : Message) (name : String)
      (o : Option (Handler × String))
      → AnswersTo (id_of message) (dispatch libs available ask now settings cap h message name o)
  dispatch-AnswersTo settings cap h message name (some (handler, original)) =
      serve_local-AnswersTo libs settings h (id_of message) handler original _
  dispatch-AnswersTo settings cap h message name none =
      choose-AnswersTo (id_of message) h.single _ _
        (only_backend-AnswersTo cap h message (str name) h.backends)
        (route_name-AnswersTo cap h message name)

  search_answer-AnswersTo :
      (message : Message) (page : Page) (o : Option (List NamedTool))
      → AnswersTo (id_of message) (search_answer libs available ask now message page o)
  search_answer-AnswersTo message page none = raised-AnswersTo (id_of message) [] page.sent
  search_answer-AnswersTo message page (some tools) =
      traced_call-AnswersTo page.host [] page.sent (id_of message) _

  search_page-AnswersTo :
      (message : Message) (query : Option String) (page : Option Page)
      → AnswersTo (id_of message) (search_page libs available ask now message query page)
  search_page-AnswersTo message query none = raised-AnswersTo (id_of message) [] []
  search_page-AnswersTo message none (some page) = raised-AnswersTo (id_of message) [] page.sent
  search_page-AnswersTo message (some query) (some page) = search_answer-AnswersTo message page _

  route_other-AnswersTo :
      (cap : CapabilityKind) (h : Host) (message : Message) (value : Value)
      → AnswersTo (id_of message) (route_other libs available ask now cap h message value)
  route_other-AnswersTo cap h message value =
      choose-AnswersTo (id_of message) _ _ _ (only_backend-AnswersTo cap h message value h.backends)
        (raised-AnswersTo (id_of message) [] [])

  call_named-AnswersTo :
      (settings : Settings) (cap : CapabilityKind) (h : Host) (message : Message) (value : Value)
      → AnswersTo (id_of message) (call_named libs available ask now settings cap h message value)
  unfolding serve_search
  call_named-AnswersTo settings cap h message (str name) =
      choose-AnswersTo (id_of message) _ _ _ (search_page-AnswersTo message _ _)
        (dispatch-AnswersTo settings cap h message name _)
  call_named-AnswersTo settings cap h message null = route_other-AnswersTo cap h message null
  call_named-AnswersTo settings cap h message (bool b) =
      route_other-AnswersTo cap h message (bool b)
  call_named-AnswersTo settings cap h message (num n) = route_other-AnswersTo cap h message (num n)
  call_named-AnswersTo settings cap h message (arr vs) =
      route_other-AnswersTo cap h message (arr vs)
  call_named-AnswersTo settings cap h message (obj fs) =
      route_other-AnswersTo cap h message (obj fs)

  after_chain-AnswersTo :
      (settings : Settings) (cap : CapabilityKind) (h : Host) (message : Message)
      (o : Option Outcome)
      → OfRequest (id_of message) o
      → AnswersTo (id_of message) (after_chain libs available ask now settings cap h message o)
  unfolding AnswersTo
  after_chain-AnswersTo settings cap h message none e = tt
  after_chain-AnswersTo settings cap h message (some (block response quarantined)) e = e
  after_chain-AnswersTo settings cap h message (some (forward shaped)) e =
      subst
        (λ id.
          AnswersTo id
            (call_named libs available ask now settings cap h shaped (value_in cap shaped)))
        e (call_named-AnswersTo settings cap h shaped (value_in cap shaped))

  -- A call that is answered, by a local handler, a backend, a filter or as an error, is answered under its own
  -- id, whatever the filters made of it.
  pub route_call-AnswersTo :
      (settings : Settings) (cap : CapabilityKind) (h : Host) (message : Message)
      → AnswersTo (id_of message) (route_call libs available ask now settings cap h message)
  unfolding route_call filtered run chain_outcome
  route_call-AnswersTo settings cap h message = go settings.chain
    where
      reduced_of : (o : Option (List Verdict)) → OfRequest (id_of message) (reduced o message)
      reduced_of none = tt
      reduced_of (some vs) = outcome_from-OfRequest vs message message refl

      told :
          (fs : List Filter) (c : Option Context)
          → AnswersTo
              (id_of message)
              (after_chain libs available ask now settings cap h message (run_in fs message c))
      told fs none = raised-AnswersTo (id_of message) [] []
      told fs (some context) =
          after_chain-AnswersTo settings cap h message (run fs "request" context message)
            (reduced_of (verdicts fs "request" context message))

      go :
          (chain : Option (List Filter))
          → AnswersTo (id_of message) (
              after_chain libs available ask now settings cap h message
                (filtered_by libs message chain))
      go none = after_chain-AnswersTo settings cap h message (some (forward message)) refl
      go (some fs) = told fs (message_context libs.codec message "c2u")

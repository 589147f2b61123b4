-- ===== src/Calls/Local.antt =====
-- The answers that a call gets from the filters and from a local handler carry its id.
use python_yamp.Prelude.{
  String, ◌≡◌, refl, ap, ◌∙◌, Bool, true, false, Option, none, some, List, [], ◌∷◌, if◌then◌else◌,
  char_eq, nat_eq, string_eq, option_eq, pair_eq, ℤ, negsuc, int_eq,
}
use python_yamp.Prelude.Dict.{get, get-insert}
use python_yamp.Json.{get_value, Value, null, Message, dict}
use python_yamp.Jsonrpc.{result, error, error_response}
use python_yamp.Errors.{error_object}
use python_yamp.Filters.{
  Verdict, allow, deny, quarantine, mutate, annotate, Outcome, forward, block, deny_response,
  with_params, changed_in, change_params, put_params, terminal, apply_one, outcome_from,
}
use python_yamp.Server.{exceeds_output_cap}
use python_yamp.Handlers.{Handler}
use python_yamp.Calls.{
  Called, answered, raised, Settings, Libraries, id_of, find_tool, args_error, result_error,
  traced_call, local_result, handled, dict_in, serve_local,
}
use python_yamp.Aggregate.{Host}
use python_yamp.Requests.{Sent, trace_result}

unfoldable pub AnswersTo : Value → Called → Type 0
AnswersTo id (answered h records sent response) = get response "id" ≡ some id
AnswersTo id (raised records sent) = Unit

abbrev pub OfRequest : Value → Option Outcome → Type 0
OfRequest id none = Unit
OfRequest id (some (forward message)) = id_of message ≡ id
OfRequest id (some (block response quarantined)) = get response "id" ≡ some id

with_params-id : (message params : Message) → id_of (with_params message params) ≡ id_of message
with_params-id message params =
    ap (λ o. elim o as (λ _. Value) [ none ↦ null | some w ↦ w ])
      (get-insert message "params" "id" (dict params))

abbrev HasId : Value → Option Message → Type 0
HasId id none = Unit
HasId id (some message) = id_of message ≡ id

changed_in-id :
    (v : Verdict) (message : Message) (o : Option Message)
    → HasId (id_of message) (changed_in v message o)
changed_in-id v message none = tt
changed_in-id v message (some params) = go (change_params v params)
  where
    go : (o : Option Message) → HasId (id_of message) (put_params message o)
    go none = tt
    go (some changed) = with_params-id message changed

apply_one-id : (v : Verdict) (message : Message) → HasId (id_of message) (apply_one v message)
unfolding apply_one
apply_one-id allow message = refl
apply_one-id (deny reason) message = changed_in-id (deny reason) message _
apply_one-id (quarantine reason) message = changed_in-id (quarantine reason) message _
apply_one-id (mutate arguments) message = changed_in-id (mutate arguments) message _
apply_one-id (annotate provenance) message = changed_in-id (annotate provenance) message _

pub outcome_from-OfRequest :
    (vs : List Verdict) (message request : Message)
    → id_of message ≡ id_of request
    → OfRequest (id_of request) (outcome_from vs message request)
unfolding outcome_from deny_response error get
outcome_from-OfRequest [] message request e = e
outcome_from-OfRequest (v ∷ vs) message request e =
    go (terminal v) (apply_one v message) (apply_one-id v message)
      (λ m h. outcome_from-OfRequest vs m request h)
  where
    go :
        (t : Option (String × Bool)) (o : Option Message)
        → HasId (id_of message) o
        → ((m : Message)
            → id_of m ≡ id_of request
            → OfRequest (id_of request) (outcome_from vs m request))
        → OfRequest (id_of request) (elim t as (λ _. Option Outcome) [
          | some (reason, quarantined) ↦
              some (block (deny_response (get_value request "id") reason) quarantined)
          | none ↦ elim o as (λ _. Option Outcome) [
            | none ↦ none
            | some m ↦ outcome_from vs m request
          ]
        ])
    go (some (reason, quarantined)) o h later = refl
    go none none h later = tt
    go none (some m) h later = later m (h ∙ e)

pub traced_call-AnswersTo :
    (h : Host) (records : List Message) (sent : List Sent) (id : Value) (v : Option Value)
    → AnswersTo id (traced_call h records sent id v)
unfolding result get AnswersTo
traced_call-AnswersTo h records sent id none = tt
traced_call-AnswersTo h records sent id (some v) = refl

pub raised-AnswersTo :
    (id : Value) (records : List Message) (sent : List Sent) → AnswersTo id (raised records sent)
unfolding AnswersTo
raised-AnswersTo id records sent = tt

pub error-AnswersTo :
    (h : Host) (records : List Message) (sent : List Sent) (id : Value) (code : ℤ) (text : String)
    → AnswersTo id (answered h records sent (error id code text none))
unfolding error get AnswersTo
error-AnswersTo h records sent id code text = refl

error_response-AnswersTo :
    (h : Host) (records : List Message) (sent : List Sent) (id : Value) (e : Message)
    → AnswersTo id (answered h records sent (error_response id e))
unfolding error_response get AnswersTo
error_response-AnswersTo h records sent id e = refl

pub choose-AnswersTo :
    (id : Value) (b : Bool) (c d : Called)
    → AnswersTo id c
    → AnswersTo id d
    → AnswersTo id (if b then c else d)
choose-AnswersTo id true c d p q = p
choose-AnswersTo id false c d p q = q

local_result-AnswersTo :
    (libs : Libraries) (settings : Settings) (h : Host) (id : Value) (tool : Option Message)
    (r : Message)
    → AnswersTo id (local_result libs settings h id tool r)
unfolding local_result
local_result-AnswersTo libs settings h id tool r = go (result_error libs tool r)
  where
    go :
        (o : Option Message)
        → AnswersTo id (elim o as (λ _. Called) [
          | some e ↦ answered h [] [] (error_response id e)
          | none ↦
              if exceeds_output_cap libs.size (dict r) settings.output_limit
              then answered h [] [] (
                  error_response id
                    (error_object (negsuc 32602) (some "server output exceeds size limit")))
              else traced_call h [] [] id (trace_result h.trace (dict r))
        ])
    go (some e) = error_response-AnswersTo h [] [] id e
    go none =
        choose-AnswersTo id (exceeds_output_cap libs.size (dict r) settings.output_limit)
          (answered h [] [] (
            error_response id
              (error_object (negsuc 32602) (some "server output exceeds size limit"))))
          (traced_call h [] [] id (trace_result h.trace (dict r)))
          (error_response-AnswersTo h [] [] id
            (error_object (negsuc 32602) (some "server output exceeds size limit")))
          (traced_call-AnswersTo h [] [] id (trace_result h.trace (dict r)))

pub serve_local-AnswersTo :
    (libs : Libraries) (settings : Settings) (h : Host) (id : Value) (handler : Handler)
    (name : String) (arguments : Value)
    → AnswersTo id (serve_local libs settings h id handler name arguments)
unfolding serve_local
serve_local-AnswersTo libs settings h id handler name arguments =
    let tool = if settings.validate_schemas then find_tool name handler.tools else none in
    go tool (args_error libs tool arguments) (dict_in (handler.call_tool name arguments))
  where
    served : (tool r : Option Message) → AnswersTo id (handled libs settings h id tool r)
    served tool none = raised-AnswersTo id [] []
    served tool (some r) = local_result-AnswersTo libs settings h id tool r

    go :
        (tool o r : Option Message)
        → AnswersTo id (elim o as (λ _. Called) [
          | some e ↦ answered h [] [] (error_response id e)
          | none ↦ handled libs settings h id tool r
        ])
    go tool (some e) r = error_response-AnswersTo h [] [] id e
    go tool none r = served tool r

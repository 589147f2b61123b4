-- ===== src/Serving/Answers.antt =====
-- Every request of the client is answered under its own id, whichever handler takes it.
use Prim.Native.String.{◌++◌ as append}
use python_yamp.Serving.{
  past_cursor, crashed, listed, Proxy, Reaction, relayed, routed, called, started, pooled, refused,
  call_kind, answer_of, run_call, list_answer, react_call, react_list, react_variant, react_request,
}
use python_yamp.Aggregate.Answer.{
  Answered, answered, raised, with_local, manual_names, traced_answer, served, page_answer, is_none,
  by_cursor, aggregate,
}
use python_yamp.Variants.{resolve_cursor}
use python_yamp.Prelude.{
  not, String, ◌≡◌, refl, Bool, true, false, ◌&&◌, ◌||◌, Option, none, some, List, [], ◌∷◌, map,
  if◌then◌else◌, ◌==◌, elem, char_eq, nat_eq, string_eq, option_eq, pair_eq, ℤ, negsuc, int_eq,
}
use python_yamp.Prelude.Dict.{Dict, get}
use python_yamp.Json.{Value, str, Message, list, get_value}
use python_yamp.Calls.{Libraries}
use python_yamp.Calls.Answers as Calls_Answers
use python_yamp.Calls.Local.{AnswersTo}
use python_yamp.Requests.Delivery as Delivery
use python_yamp.Requests.{Sent}
use python_yamp.Aggregate.{CapabilityKind, Host, Query, effective_variant, variant_error}
use python_yamp.Aggregate.Collect.{Page}
use python_yamp.Collision.{Tool}
use python_yamp.Subscriptions.{is_subscribe_method}
use python_yamp.Tasks.{tasks_methods, is_task_augmented}
use python_yamp.Router.{params_of}
use python_yamp.Calls.Dispatch.{route_call}
use python_yamp.Variants.{resolve_cursor}
use python_yamp.Jsonrpc.{result, error}

abbrev pub ListAnswersTo : Value → Answered → Type 0
ListAnswersTo id (answered h sent response) = get response "id" ≡ some id
ListAnswersTo id raised = Unit

abbrev pub StartAnswersTo : Value → Option Message → Type 0
StartAnswersTo id none = Unit
StartAnswersTo id (some response) = get response "id" ≡ some id

-- a reaction that answers does so under the id
abbrev pub ReactsTo : Value → Reaction → Type 0
ReactsTo id (relayed r) = Unit
ReactsTo id (routed r) = Delivery.AnswersTo id r
ReactsTo id (listed r) = ListAnswersTo id r
ReactsTo id (called r) = AnswersTo id r
ReactsTo id (started task_id response) = StartAnswersTo id response
ReactsTo id pooled = Unit
ReactsTo id (refused response) = get response "id" ≡ some id
ReactsTo id crashed = Unit

error-id :
    (id : Value) (code : ℤ) (text : String) (d : Option Message)
    → get (error id code text d) "id" ≡ some id
unfolding error get
error-id id code text d = refl

result-id : (id v : Value) → get (result id v) "id" ≡ some id
unfolding result get
result-id id v = refl

variant_error-id :
    (variants : List String) (id : Value) (variant : Option String)
    → StartAnswersTo id (variant_error variants id variant)
unfolding variant_error
variant_error-id variants id none = tt
variant_error-id [] id (some variant) = error-id id _ _ none
variant_error-id (v ∷ vs) id (some variant) = go (elem variant (v ∷ vs))
  where
    go :
        (b : Bool)
        → StartAnswersTo id (
            if b
            then none
            else some (
                error id
                  (negsuc 32601)
                  (append "unknown variant: " variant)
                  (some (("availableVariants", list (map (λ s. str s) (v ∷ vs))) ∷ []))))
    go true = tt
    go false = error-id id _ _ _

traced_answer-id :
    (h : Host) (sent : List Sent) (id : Value) (v : Option Value)
    → ListAnswersTo id (traced_answer h sent id v)
traced_answer-id h sent id none = tt
traced_answer-id h sent id (some v) = result-id id v

page_answer-id :
    (hexed : Message → String) (cap : CapabilityKind) (q : Query) (id : Value) (page : Option Page)
    → ListAnswersTo id (page_answer hexed cap q id page)
page_answer-id hexed cap q id none = tt
page_answer-id hexed cap q id (some page) =
    go (manual_names cap page.host (with_local cap page.host q page.tools))
  where
    go : (tools : Option (List Tool)) → ListAnswersTo id (served hexed cap q id page tools)
    go none = error-id id _ _ none
    go (some tools) = traced_answer-id page.host page.sent id _

answer_of-id : (id : Value) (v : Option Value) → StartAnswersTo id (answer_of id v)
answer_of-id id none = tt
answer_of-id id (some v) = result-id id v

choose-ReactsTo :
    (id : Value) (b : Bool) (r s : Reaction)
    → ReactsTo id r
    → ReactsTo id s
    → ReactsTo id (if b then r else s)
choose-ReactsTo id true r s p q = p
choose-ReactsTo id false r s p q = q

module _ (libs : Libraries) (available : String → Bool) (ask : Sent → Option Message) (now : ℤ)
    (hexed : Message → String) (unhexed : String → Option Value) where
  aggregate-id :
      (cap : CapabilityKind) (h : Host) (q : Query) (id : Value)
      → ListAnswersTo id (aggregate available ask now hexed unhexed cap h q id)
  unfolding aggregate
  aggregate-id cap h q id = go (resolve_cursor unhexed q.cursor)
    where
      choose :
          (b : Bool) (page : Option Page) (text : String) (d : Option Message)
          → ListAnswersTo id (
              if b
              then page_answer hexed cap q id page
              else answered h [] (error id (negsuc 32601) text d))
      choose true page text d = page_answer-id hexed cap q id page
      choose false page text d = error-id id _ text d

      go :
          (c : Option (Option String × Dict String String))
          → ListAnswersTo id (by_cursor available ask now hexed unhexed cap h q id c)
      go none = choose (is_none q.cursor || h.single) _ _ _
      go (some (variant, cursors)) =
          choose (variant == effective_variant h.variants q.variant) _ _ _

  list_answer-ReactsTo :
      (p : Proxy) (cap : CapabilityKind) (message : Message) (q : Query × Bool)
      → ReactsTo
          (get_value message "id")
          (list_answer libs available ask now hexed unhexed p cap message q)
  list_answer-ReactsTo p cap message (q, readable) = go (
      not readable
      && past_cursor libs available ask now hexed unhexed p.host q
          (resolve_cursor unhexed q.cursor))
    where
      go :
          (b : Bool)
          → ReactsTo (get_value message "id") (
              if b
              then crashed
              else listed
                  (aggregate available ask now hexed unhexed cap p.host q (get_value message "id")))
      go true = tt
      go false = aggregate-id cap p.host q (get_value message "id")

  run_call-ReactsTo :
      (p : Proxy) (cap : CapabilityKind) (message : Message) (is_local : Option Bool)
      → ReactsTo
          (get_value message "id")
          (run_call libs available ask now hexed unhexed p cap message is_local)
  run_call-ReactsTo p cap message is_local = go is_local
    where
      by_call :
          ReactsTo
            (get_value message "id")
            (called (route_call libs available ask now p.settings cap p.host message))
      by_call =
          Calls_Answers.route_call-AnswersTo libs available ask now p.settings cap p.host message

      go :
          (o : Option Bool)
          → ReactsTo
              (get_value message "id")
              (run_call libs available ask now hexed unhexed p cap message o)
      go none =
          choose-ReactsTo (get_value message "id") (p.state.server_tasks || p.pool_enabled) crashed
            _ tt by_call
      go (some b) =
          choose-ReactsTo (get_value message "id")
            ((p.state.server_tasks && b) && is_task_augmented (params_of message)) _ _
            (answer_of-id (get_value message "id") _)
            (choose-ReactsTo (get_value message "id") (p.pool_enabled && b) pooled _ tt by_call)

  react_call-ReactsTo :
      (p : Proxy) (message : Message) (method : String) (cap : Option CapabilityKind)
      → ReactsTo
          (get_value message "id")
          (react_call libs available ask now hexed unhexed p message method cap)
  react_call-ReactsTo p message method (some cap) = run_call-ReactsTo p cap message _
  react_call-ReactsTo p message method none = error-id (get_value message "id") _ _ none

  react_list-ReactsTo :
      (p : Proxy) (message : Message) (method : String) (cap : Option CapabilityKind)
      → ReactsTo
          (get_value message "id")
          (react_list libs available ask now hexed unhexed p message method cap)
  react_list-ReactsTo p message method (some cap) = list_answer-ReactsTo p cap message _
  react_list-ReactsTo p message method none =
      react_call-ReactsTo p message method (call_kind method)

  react_variant-ReactsTo :
      (p : Proxy) (message : Message) (method : String) (e : Option Message)
      → StartAnswersTo (get_value message "id") e
      → ReactsTo
          (get_value message "id")
          (react_variant libs available ask now hexed unhexed p message method e)
  react_variant-ReactsTo p message method none h = react_list-ReactsTo p message method _
  react_variant-ReactsTo p message method (some e) h = h

  -- Whatever a request of the client asks for, and whatever the backends, the handlers and the filters do: if
  -- the loop answers it, as a list, a call, a task, a subscription or an error, it does so under the
  -- request's own id.
  pub react_request-ReactsTo :
      (p : Proxy) (message : Message) (method : String)
      → ReactsTo
          (get_value message "id")
          (react_request libs available ask now hexed unhexed p message method)
  unfolding react_request
  react_request-ReactsTo p message method =
      choose-ReactsTo (get_value message "id") (elem method tasks_methods) _ _
        ((Delivery.route_task-Proper available ask libs.trace_ids p.state (get_value message "id")
          (params_of message) method).2)
        (choose-ReactsTo (get_value message "id") (is_subscribe_method (str method)) _ _
          ((Delivery.route_subscription-Proper available ask libs.trace_ids p.state
            (get_value message "id") (params_of message) method).2)
          (react_variant-ReactsTo p message method _
            (variant_error-id p.host.variants (get_value message "id") _)))

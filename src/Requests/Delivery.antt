-- ===== src/Requests/Delivery.antt =====
-- Which backend a request reaches, and that every answer carries the request's id.
use Prim.Native.String.{◌++◌ as append}
use python_yamp.Prelude.{
  ◌≤◌, String, ◌≡◌, refl, sym, subst, Bool, true, false, not, ◌&&◌, Option, none, some, List, [],
  ◌∷◌, arith, eq_refl, if◌then◌else◌, length, All, elem, nat_eq, string_eq, option_eq, pair_eq, ℤ,
  int_eq,
}
use python_yamp.Prelude.Dict.{get, insert}
use python_yamp.Json.{Value, str, Message, dict}
use python_yamp.Jsonrpc.{invalid_params, result, error}
use python_yamp.Namespace.{split_uri}
use python_yamp.Tasks.{TaskRecord, resolve_task, contains}
use python_yamp.Requests.{
  server_not_available, Sent, State, Routed, answered, raised, text_at, trace_request, trace_result,
  shaped, respond, error_part, refusal, relay_answer, send, forward_to, shape_task, local_handle,
  serve_local_task, resolved_task, task_named, route_task, register_uri, local_uri, resolved_uri,
  only_backend, uri_named, route_subscription,
}

abbrev pub sent_of : Routed → List Sent
sent_of (answered s sent m) = sent
sent_of (raised sent) = sent

-- An answer carries the request's id.
abbrev pub AnswersTo : Value → Routed → Type 0
AnswersTo id (answered s sent m) = get m "id" ≡ some id
AnswersTo id (raised sent) = Unit

module _ (available : String → Bool) (ask : Sent → Option Message) (ids : String × String) where
  -- At most one request is sent, to a known backend, which is available if the router is resilient.
  abbrev pub Proper : State → Value → Routed → Type 0
  Proper s id r =
      (length (sent_of r) ≤ 1)
      × All
          (λ x.
            (elem x.backend s.backends ≡ true) × (s.resilient ≡ true → available x.backend ≡ true))
          (sent_of r)
      × AnswersTo id r

  respond-AnswersTo :
      (s : State) (sent : List Sent) (id : Value) (v : Option Value)
      → (sent_of (respond s sent id v) ≡ sent) × AnswersTo id (respond s sent id v)
  unfolding result get
  respond-AnswersTo s sent id none = (refl, tt)
  respond-AnswersTo s sent id (some v) = (refl, refl)

  pub relay-AnswersTo :
      (s : State) (sent : List Sent) (id : Value) (b : String) (shape : Value → Option Value)
      (m : Option Message)
      → (sent_of (relay_answer s sent id b shape m) ≡ sent)
        × AnswersTo id (relay_answer s sent id b shape m)
  unfolding error get
  relay-AnswersTo s sent id b shape none = go s.resilient _
    where
      go :
          (r : Bool) (text : String)
          → (sent_of (if r then refusal s sent id server_not_available text else raised sent)
              ≡ sent)
            × AnswersTo id (if r then refusal s sent id server_not_available text else raised sent)
      go true text = (refl, refl)
      go false text = (refl, tt)
  relay-AnswersTo s sent id b shape (some response) =
      elim (get response "result")
        as (λ o.
          (sent_of (elim o as (λ _. Routed) [
            | some v ↦ respond s sent id (shaped s.trace (shape v))
            | none ↦ answered s sent (
                ("jsonrpc", str "2.0")
                ∷ ("id", id)
                ∷ ("error", error_part (get response "error"))
                ∷ [])
          ])
            ≡ sent)
          × AnswersTo id (elim o as (λ _. Routed) [
            | some v ↦ respond s sent id (shaped s.trace (shape v))
            | none ↦ answered s sent (
                ("jsonrpc", str "2.0")
                ∷ ("id", id)
                ∷ ("error", error_part (get response "error"))
                ∷ [])
          ])) [
            | some v ↦ respond-AnswersTo s sent id (shaped s.trace (shape v))
            | none ↦ (refl, refl)
          ]

  -- No request is sent.
  abbrev Quiet : Value → Routed → Type 0
  Quiet id r = (sent_of r ≡ []) × AnswersTo id r

  Quiet-Proper : (s : State) (id : Value) (r : Routed) → Quiet id r → Proper s id r
  Quiet-Proper s id r (e, a) = (
    rw e (omega arith),
    subst
        (All (λ x.
          (elem x.backend s.backends ≡ true) × (s.resilient ≡ true → available x.backend ≡ true)))
        (sym e) tt,
    a,
  )

  refusal-Proper :
      (s s' : State) (id : Value) (code : ℤ) (text : String)
      → Proper s id (refusal s' [] id code text)
  unfolding error get
  refusal-Proper s s' id code text = Quiet-Proper s id (refusal s' [] id code text) (refl, refl)

  send-Proper :
      (s : State) (id : Value) (b method : String) (shape : Value → Option Value)
      (p : Option Message)
      → elem b s.backends ≡ true
      → (s.resilient ≡ true → available b ≡ true)
      → Proper s id (send available ask ids s id b method shape p)
  send-Proper s id b method shape none known up = Quiet-Proper s id (raised []) (refl, tt)
  send-Proper s id b method shape (some params) known up =
      let sent : Sent = record { backend = b; method = method; params = params } in
      let (e, a) = relay-AnswersTo s (sent ∷ []) id b shape (ask sent) in
      (
        rw e (omega arith),
        subst
            (All (λ x.
              (elem x.backend s.backends ≡ true)
              × (s.resilient ≡ true → available x.backend ≡ true)))
            (sym e) ((known, up), tt),
        a,
      )

  forward_to-Proper :
      (s : State) (id : Value) (params : Message) (key method b original : String)
      (shape : Value → Option Value)
      → elem b s.backends ≡ true
      → Proper s id (forward_to available ask ids s id params key method b original shape)
  unfolding forward_to
  forward_to-Proper s id params key method b original shape known =
      go s.resilient (available b) refl refl
    where
      p : Option Message
      p = trace_request s.trace ids (insert params key (str original))

      go :
          (r a : Bool)
          → s.resilient ≡ r
          → available b ≡ a
          → Proper s id (
              if r && not a
              then refusal s [] id server_not_available (append "backend unavailable: " b)
              else send available ask ids s id b method shape p)
      go true false e f = refusal-Proper s s id _ _
      go true true e f = send-Proper s id b method shape p known (λ _. f)
      go false a e f = send-Proper s id b method shape p known (λ h. absurd (ground arith))

  local_handle-Quiet :
      (s : State) (id : Value) (task_id : String) (r : Option TaskRecord)
      → Quiet id (local_handle available ask ids s id task_id r)
  local_handle-Quiet s id task_id none = (refl, tt)
  local_handle-Quiet s id task_id (some r) = respond-AnswersTo s [] id _

  resolved_task-Proper :
      (s : State) (id : Value) (params : Message) (method task_id : String)
      (o : Option (String × String))
      → Proper s id (resolved_task available ask ids s id params method task_id o)
  resolved_task-Proper s id params method task_id none = refusal-Proper s s id _ _
  resolved_task-Proper s id params method task_id (some (b, original)) = go (elem b s.backends) refl
    where
      go :
          (k : Bool)
          → elem b s.backends ≡ k
          → Proper s id (
              if k
              then forward_to available ask ids s id params "taskId" method b original
                  (shape_task available ask ids b)
              else refusal s [] id invalid_params (append "unknown task: " task_id))
      go true known = forward_to-Proper s id params "taskId" method b original _ known
      go false known = refusal-Proper s s id _ _

  -- A tasks/* request sends at most one request, to a backend the router has, whose breaker lets it
  -- through if the router is resilient; and an answer to it carries its id.
  pub route_task-Proper :
      (s : State) (id : Value) (params : Message) (method : String)
      → Proper s id (route_task available ask ids s id params method)
  unfolding route_task serve_local_task
  route_task-Proper s id params method = go (text_at (get params "taskId"))
    where
      go : (o : Option String) → Proper s id (task_named available ask ids s id params method o)
      go none = Quiet-Proper s id (raised []) (refl, tt)
      go (some task_id) =
          elim (s.server_tasks && contains task_id s.store)
            as (λ b. Proper s id (
              if b
              then serve_local_task available ask ids s id method task_id
              else resolved_task available ask ids s id params method task_id
                  (resolve_task task_id))) [
                    | true ↦
                        Quiet-Proper s id (serve_local_task available ask ids s id method task_id)
                          (local_handle-Quiet _ id task_id _)
                    | false ↦ resolved_task-Proper s id params method task_id (resolve_task task_id)
                  ]

  local_uri-Proper :
      (s : State) (id : Value) (method uri : String)
      → Proper s id (local_uri available ask ids s id method uri)
  local_uri-Proper s id method uri = go s.subscriptions_enabled
    where
      go :
          (b : Bool)
          → Proper s id (
              if b
              then respond
                  (register_uri available ask ids s method uri)
                  []
                  id
                  (trace_result s.trace (dict []))
              else refusal s [] id invalid_params (append "unknown resource: " uri))
      go true =
          Quiet-Proper s id
            (respond (register_uri available ask ids s method uri) [] id
              (trace_result s.trace (dict [])))
            (respond-AnswersTo _ [] id _)
      go false = refusal-Proper s s id _ _

  resolved_uri-Proper :
      (s : State) (id : Value) (params : Message) (method uri : String)
      (o : Option (String × String))
      → Proper s id (resolved_uri available ask ids s id params method uri o)
  resolved_uri-Proper s id params method uri none = local_uri-Proper s id method uri
  resolved_uri-Proper s id params method uri (some (b, original)) = go (elem b s.backends) refl
    where
      go :
          (k : Bool)
          → elem b s.backends ≡ k
          → Proper s id (
              if k
              then forward_to available ask ids s id params "uri" method b original some
              else local_uri available ask ids s id method uri)
      go true known = forward_to-Proper s id params "uri" method b original some known
      go false known = local_uri-Proper s id method uri

  only_backend-Proper :
      (s : State) (id : Value) (params : Message) (method uri : String) (bs : List String)
      → ((b : String) → elem b bs ≡ true → elem b s.backends ≡ true)
      → Proper s id (only_backend available ask ids s id params method uri bs)
  only_backend-Proper s id params method uri [] f = Quiet-Proper s id (raised []) (refl, tt)
  only_backend-Proper s id params method uri (b ∷ bs) f =
      forward_to-Proper s id params "uri" method b uri some (f b (ground (arith, eq_refl b)))

  -- A resources/subscribe or unsubscribe request sends at most one request, to a backend the router
  -- has, whose breaker lets it through if the router is resilient; and an answer to it carries its id.
  pub route_subscription-Proper :
      (s : State) (id : Value) (params : Message) (method : String)
      → Proper s id (route_subscription available ask ids s id params method)
  unfolding route_subscription
  route_subscription-Proper s id params method = go (text_at (get params "uri"))
    where
      go : (o : Option String) → Proper s id (uri_named available ask ids s id params method o)
      go none = Quiet-Proper s id (raised []) (refl, tt)
      go (some uri) =
          elim s.single
            as (λ b. Proper s id (
              if b
              then only_backend available ask ids s id params method uri s.backends
              else resolved_uri available ask ids s id params method uri (split_uri uri))) [
                | true ↦ only_backend-Proper s id params method uri s.backends (λ b h. h)
                | false ↦ resolved_uri-Proper s id params method uri (split_uri uri)
              ]

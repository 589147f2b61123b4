-- ===== src/Requests/Destination.antt =====
-- A request that names a backend's task or resource reaches that backend, under its own name for it.
use Prim.Native.String.{◌++◌ as append}
use python_yamp.Prelude.{
  String, ◌≡◌, ap, ◌∙◌, ◌≢◌, Bool, true, false, not, ◌&&◌, Option, some, List, [], ◌∷◌,
  if◌then◌else◌, elem, nat_eq, string_eq, option_eq, pair_eq, int_eq,
}
use python_yamp.Jsonrpc.{invalid_params}
use python_yamp.Prelude.Dict.{get, insert}
use python_yamp.Prelude.Text.{partition}
use python_yamp.Json.{Value, str, Message}
use python_yamp.Namespace.{valid_backend_id, prefix, split, prefix_uri, split_uri}
use python_yamp.Namespace.Names.{ends_low, split-prefix}
use python_yamp.Namespace.Uris.{split_uri-prefix_uri}
use python_yamp.Tasks.{resolve_task, contains}
use python_yamp.Requests.{
  server_not_available, Sent, State, text_at, trace_request, refusal, send, forward_to, shape_task,
  serve_local_task, resolved_task, task_named, route_task, local_uri, resolved_uri, only_backend,
  uri_named, route_subscription,
}
use python_yamp.Requests.Delivery.{sent_of, relay-AnswersTo}

module _ (available : String → Bool) (ask : Sent → Option Message) (ids : String × String) where
  abbrev one_request : String → String → Message → List Sent
  one_request b method p = record { backend = b; method = method; params = p } ∷ []

  -- What `forward_to` sends where nothing stands in its way.
  forward_to_sends :
      (s : State) (id : Value) (params p : Message) (key method b original : String)
      (shape : Value → Option Value)
      → (s.resilient && not (available b)) ≡ false
      → trace_request s.trace ids (insert params key (str original)) ≡ some p
      → sent_of (forward_to available ask ids s id params key method b original shape)
        ≡ one_request b method p
  unfolding forward_to
  forward_to_sends s id params p key method b original shape up t =
      ap
        (λ x. sent_of (
          if x
          then refusal s [] id server_not_available (append "backend unavailable: " b)
          else send available ask ids s id b method shape
              (trace_request s.trace ids (insert params key (str original)))))
        up
      ∙ ap (λ o. sent_of (send available ask ids s id b method shape o)) t
      ∙ (relay-AnswersTo available ask ids s (one_request b method p) id b shape
          (ask (record { backend = b; method = method; params = p }))).0

  -- A request about the task that a client knows as `prefix b original`, where it is none of the
  -- server's own and the router has the backend and may ask it, is sent to `b` alone, with the
  -- backend's own id for the task in its params, traced as the router is set where that does not raise;
  -- for a valid identifier that does not end in "_" and a task id that is not empty.
  pub route_task_reaches :
      (s : State) (id : Value) (params p : Message) (method b original : String)
      → valid_backend_id b ≡ true
      → ends_low b ≡ false
      → original ≢ ""
      → elem b s.backends ≡ true
      → get params "taskId" ≡ some (str (prefix b original))
      → (s.server_tasks && contains (prefix b original) s.store) ≡ false
      → (s.resilient && not (available b)) ≡ false
      → trace_request s.trace ids (insert params "taskId" (str original)) ≡ some p
      → sent_of (route_task available ask ids s id params method) ≡ one_request b method p
  unfolding route_task resolve_task
  route_task_reaches s id params p method b original v l full known h own up t =
      ap (λ o. sent_of (task_named available ask ids s id params method (text_at o))) h
      ∙ ap
          (λ x. sent_of (
            if x
            then serve_local_task available ask ids s id method (prefix b original)
            else resolved_task available ask ids s id params method (prefix b original)
                (split (prefix b original))))
          own
      ∙ ap (λ o. sent_of (resolved_task available ask ids s id params method (prefix b original) o))
          (split-prefix b original v l full)
      ∙ ap
          (λ x. sent_of (
            if x
            then forward_to available ask ids s id params "taskId" method b original
                (shape_task available ask ids b)
            else refusal s [] id invalid_params (append "unknown task: " (prefix b original))))
          known
      ∙ forward_to_sends s id params p "taskId" method b original _ up t

  -- A subscription to a URI with a scheme that a client knows under the backend `b`, which has a valid
  -- identifier, is sent to `b` alone, with the backend's own URI, by a router of several backends that
  -- has `b` and may ask it, traced as the router is set where that does not raise.
  pub route_subscription_reaches :
      (s : State) (id : Value) (params p : Message) (method b uri scheme rest : String)
      → valid_backend_id b ≡ true
      → partition "://" uri ≡ some (scheme, rest)
      → s.single ≡ false
      → elem b s.backends ≡ true
      → get params "uri" ≡ some (str (prefix_uri b uri))
      → (s.resilient && not (available b)) ≡ false
      → trace_request s.trace ids (insert params "uri" (str uri)) ≡ some p
      → sent_of (route_subscription available ask ids s id params method) ≡ one_request b method p
  unfolding route_subscription
  route_subscription_reaches s id params p method b uri scheme rest v parts many known h up t =
      ap (λ o. sent_of (uri_named available ask ids s id params method (text_at o))) h
      ∙ ap
          (λ x. sent_of (
            if x
            then only_backend available ask ids s id params method (prefix_uri b uri) s.backends
            else resolved_uri available ask ids s id params method (prefix_uri b uri)
                (split_uri (prefix_uri b uri))))
          many
      ∙ ap (λ o. sent_of (resolved_uri available ask ids s id params method (prefix_uri b uri) o))
          (split_uri-prefix_uri b uri scheme rest v parts)
      ∙ ap
          (λ x. sent_of (
            if x
            then forward_to available ask ids s id params "uri" method b uri some
            else local_uri available ask ids s id method (prefix_uri b uri)))
          known
      ∙ forward_to_sends s id params p "uri" method b uri some up t

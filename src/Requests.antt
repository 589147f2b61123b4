-- ===== src/Requests.antt =====
-- yamp/router.py: tasks/* and resources/subscribe requests, and how a request is forwarded.
pub mod Delivery
pub mod Destination
mod Tests
use Prim.Native.String.{◌++◌ as append}
use python_yamp.Prelude.{
  ℕ, zero, suc, ◌+◌, ◌-◌, ◌*◌, ◌≤◌, ◌<◌, String, ◌≡◌, refl, sym, ap, ◌∙◌, subst, ◌≢◌, ◌↔◌, ◌⊎◌, inl,
  inr, Bool, true, false, not, ◌&&◌, ◌||◌, Option, none, some, List, [], ◌∷◌, ◌++◌, map, arith,
  eq_iff, eq_refl, ltb, leb, nat_beq, if◌then◌else◌, is_some, Bool-cases, Option-cases,
  some_injective, length, all, any, take, keep, length-append, All, All-append, Eq, ◌==◌, beq_refl,
  elem, int_beq_iff, nat_eq, string_eq, option_eq, pair_eq, ℤ, pos, negsuc, pos_part, neg_part,
  ◌+ℤ◌, ◌≤ℤ◌, ltb_ℤ, leb_ℤ, int_eq,
}
use python_yamp.Prelude.Dict.{
  Dict, get, has, insert, remove, update, get_or, get-insert, get-remove, get-insert_self, keys,
  values, dict_laws,
}
use python_yamp.Json.{
  Value, null, bool, num, str, arr, obj, Items, nil, cons, Fields, end, field, Message, entries,
  of_entries, items, of_items, entries-of_entries, items-of_items, dict, list, get_value,
  dict_or_empty, as_str, as_dict,
}
use python_yamp.Jsonrpc.{
  invalid_request, method_not_found, invalid_params, internal_error, optional_entry, result, error,
  error_response, method_of,
}
use python_yamp.Namespace.{
  delimiter, is_id_char, all_id_chars, valid_backend_id, put_in_path, prefix_uri, take_from_path,
  split_uri,
}
use python_yamp.Observability.{
  proxy_hops_key, traceparent, proxy_hop, hops_of, append_hop, make_traceparent,
  ensure_trace_context,
}
use python_yamp.Tasks.{
  tasks_methods, task_event_method, result_type_task, task_meta_key, is_task_result,
  is_task_augmented, new_task_id, TaskRecord, working, completed, cancelled, failed, status_of,
  result_of, error_of, unless_null, task_handle, prefix_at, prefix_task, namespace_task_id,
  resolve_task, prefix_param, namespace_event, ServerTasks, new_store, contains, find_task,
  is_working, finish, cancel,
}
use python_yamp.Subscriptions.{
  subscribe_method, unsubscribe_method, updated_method, is_subscribe_method, updated_notification,
  namespace_updated, Subscriptions, no_subscriptions, discard, subscribe, unsubscribe,
}

-- errors.SERVER_NOT_AVAILABLE
abbrev pub server_not_available : ℤ
server_not_available = negsuc 32002

-- A request sent to a backend: its method and params.
pub record Sent : Type 0 where
  pub backend : String
  pub method : String
  pub params : Message

-- The router's settings and stores that these requests use.
pub record State : Type 0 where
  pub backends : List String
  pub single : Bool
  pub resilient : Bool
  pub trace : Bool
  pub server_tasks : Bool
  pub subscriptions_enabled : Bool
  pub store : ServerTasks
  pub subscriptions : Subscriptions

-- what a handler gives: the next state, the requests sent, and the response; or it raises
pub data Routed : Type 0 where
  answered : State → List Sent → Message → Routed
  raised : List Sent → Routed

-- a text of `params` under the key: params.get(k, ""); `none` where it is no text
abbrev pub text_at : Option Value → Option String
text_at none = some ""
text_at (some (str s)) = some s
text_at (some _) = none

-- dict(params.get("_meta", {})): a list of pairs, which Python also takes, is not modelled
abbrev pub meta_at : Option Value → Option Message
meta_at none = some []
meta_at (some (obj fs)) = some (entries fs)
meta_at (some _) = none

abbrev pub traced : Message → String × String → Option Message → Option Message
traced params ids none = none
traced params ids (some meta) = some (insert params "_meta" (dict (ensure_trace_context meta ids)))

abbrev pub with_hop : Option Message → Option Message
with_hop none = none
with_hop (some meta) = append_hop meta "forward"

-- `_trace_request`: `none` where it raises
unfoldable pub trace_request : Bool → String × String → Message → Option Message
trace_request false ids params = some params
trace_request true ids params = traced params ids (with_hop (meta_at (get params "_meta")))

abbrev pub put_meta : Message → Option Message → Option Value
put_meta out none = none
put_meta out (some meta) = some (dict (insert out "_meta" (dict meta)))

-- `_trace_result`: `none` where it raises
unfoldable pub trace_result : Bool → Value → Option Value
trace_result false v = some v
trace_result true (obj fs) = put_meta (entries fs) (with_hop (meta_at (get (entries fs) "_meta")))
trace_result true _ = none

-- the result for the client, from the backend's
abbrev pub shaped : Bool → Option Value → Option Value
shaped trace none = none
shaped trace (some v) = trace_result trace v

abbrev pub respond : State → List Sent → Value → Option Value → Routed
respond s sent id none = raised sent
respond s sent id (some v) = answered s sent (result id v)

-- response.get("error", …)
abbrev pub error_part : Option Value → Value
error_part none = dict (("code", num internal_error) ∷ ("message", str "backend error") ∷ [])
error_part (some e) = e

abbrev pub refusal : State → List Sent → Value → ℤ → String → Routed
refusal s sent id code text = answered s sent (error id code text none)

-- What the answer of the backend becomes; `none` is a request that failed.
abbrev pub relay_answer :
    State → List Sent → Value → String → (Value → Option Value) → Option Message → Routed
relay_answer s sent id backend_id shape none =
    if s.resilient
    then refusal s sent id server_not_available (append "backend call failed: " backend_id)
    else raised sent
relay_answer s sent id backend_id shape (some response) = elim (get response "result") [
  | some v ↦ respond s sent id (shaped s.trace (shape v))
  | none ↦
      answered s sent
        (("jsonrpc", str "2.0") ∷ ("id", id) ∷ ("error", error_part (get response "error")) ∷ [])
]

-- The backends are behind transports: `available` is the answer of a backend's breaker, and `ask` the
-- response to a request, or `none` where it raises. `ids` are the trace ids that the random source gives.
module _ (available : String → Bool) (ask : Sent → Option Message) (ids : String × String) where
  abbrev pub send :
      State → Value → String → String → (Value → Option Value) → Option Message → Routed
  send s id backend_id method shape none = raised []
  send s id backend_id method shape (some params) =
      let sent : Sent = record { backend = backend_id; method = method; params = params } in
      relay_answer s (sent ∷ []) id backend_id shape (ask sent)

  -- the part that `_route_task` and `_route_subscription` share, from `backend = …` on
  unfoldable pub forward_to :
      State → Value → Message → String → String → String → String → (Value → Option Value) → Routed
  forward_to s id params key method backend_id original shape =
      if s.resilient && not (available backend_id)
      then refusal s [] id server_not_available (append "backend unavailable: " backend_id)
      else send s id backend_id method shape
          (trace_request s.trace ids (insert params key (str original)))

  abbrev pub shape_task : String → Value → Option Value
  shape_task backend_id (obj fs) = some (dict (namespace_task_id (entries fs) backend_id))
  shape_task backend_id _ = none

  abbrev pub local_handle : State → Value → String → Option TaskRecord → Routed
  local_handle s id task_id none = raised []
  local_handle s id task_id (some r) =
      respond s [] id
        (trace_result s.trace (dict (task_handle task_id (status_of r) (result_of r) (error_of r))))

  -- `_serve_local_task`; the task handle that it also cancels is the running call's
  unfoldable pub serve_local_task : State → Value → String → String → Routed
  serve_local_task s id method task_id =
      let s' =
        if method == "tasks/cancel" then record s { store = (cancel task_id s.store).0 } else s in
      local_handle s' id task_id (find_task task_id s'.store)

  abbrev pub resolved_task :
      State → Value → Message → String → String → Option (String × String) → Routed
  resolved_task s id params method task_id none =
      refusal s [] id invalid_params (append "unknown task: " task_id)
  resolved_task s id params method task_id (some (backend_id, original)) =
      if elem backend_id s.backends
      then forward_to s id params "taskId" method backend_id original (shape_task backend_id)
      else refusal s [] id invalid_params (append "unknown task: " task_id)

  abbrev pub task_named : State → Value → Message → String → Option String → Routed
  task_named s id params method none = raised []
  task_named s id params method (some task_id) =
      if s.server_tasks && contains task_id s.store
      then serve_local_task s id method task_id
      else resolved_task s id params method task_id (resolve_task task_id)

  -- `_route_task`, with the request's id and `_params`
  unfoldable pub route_task : State → Value → Message → String → Routed
  route_task s id params method = task_named s id params method (text_at (get params "taskId"))

  abbrev pub register_uri : State → String → String → State
  register_uri s method uri =
      if method == subscribe_method
      then record s { subscriptions = subscribe uri s.subscriptions }
      else record s { subscriptions = (unsubscribe uri s.subscriptions).0 }

  abbrev pub local_uri : State → Value → String → String → Routed
  local_uri s id method uri =
      if s.subscriptions_enabled
      then respond (register_uri s method uri) [] id (trace_result s.trace (dict []))
      else refusal s [] id invalid_params (append "unknown resource: " uri)

  abbrev pub resolved_uri :
      State → Value → Message → String → String → Option (String × String) → Routed
  resolved_uri s id params method uri none = local_uri s id method uri
  resolved_uri s id params method uri (some (backend_id, original)) =
      if elem backend_id s.backends
      then forward_to s id params "uri" method backend_id original some
      else local_uri s id method uri

  -- next(iter(self._backends)): raises where there is none
  abbrev pub only_backend : State → Value → Message → String → String → List String → Routed
  only_backend s id params method uri [] = raised []
  only_backend s id params method uri (b ∷ bs) = forward_to s id params "uri" method b uri some

  abbrev pub uri_named : State → Value → Message → String → Option String → Routed
  uri_named s id params method none = raised []
  uri_named s id params method (some uri) =
      if s.single
      then only_backend s id params method uri s.backends
      else resolved_uri s id params method uri (split_uri uri)

  -- `_route_subscription`, with the request's id and `_params`
  unfoldable pub route_subscription : State → Value → Message → String → Routed
  route_subscription s id params method = uri_named s id params method (text_at (get params "uri"))

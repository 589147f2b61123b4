-- ===== src/Router.antt =====
-- yamp/router.py: what passes between the client and the backends outside the request path.
pub mod Correlation
pub mod Replies
mod Tests
use Prim.Native.String.{◌++◌ as append}
use python_yamp.Prelude.{
  ℕ, zero, suc, ◌+◌, ◌-◌, ◌*◌, ◌≤◌, ◌<◌, String, ◌≡◌, refl, sym, ap, ◌∙◌, subst, ◌≢◌, ◌↔◌, ◌⊎◌, inl,
  inr, Bool, true, false, not, ◌&&◌, ◌||◌, Option, none, some, List, [], ◌∷◌, ◌++◌, map, arith,
  eq_iff, eq_refl, ltb, leb, nat_beq, if◌then◌else◌, is_some, Bool-cases, Option-cases, length, all,
  any, take, keep, length-append, All, All-append, Eq, ◌==◌, beq_refl, elem, nat_eq, string_eq,
  option_eq, pair_eq, ℤ, pos, negsuc, pos_part, neg_part, ◌+ℤ◌, ◌≤ℤ◌, ltb_ℤ, leb_ℤ, int_eq,
}
use python_yamp.Prelude.Dict.{
  Dict, get, has, insert, remove, update, get_or, get-insert, get-remove, get-insert_self, keys,
  values, dict_laws,
}
use python_yamp.Json.{
  Value, null, bool, num, str, arr, obj, Items, nil, cons, Fields, end, field, Message, entries,
  of_entries, items, of_items, entries-of_entries, dict, list, get_value, dict_or_empty, as_str,
  as_dict,
}
use python_yamp.Prelude.Text.{
  strip_prefix, starts_with, partition, contains, show_ℕ, show_ℕ-injective, lacks_low,
  lacks_low-append, lacks_low-show_ℕ, partition-eq-none, strip_prefix_sound, strip_prefix-append,
}
use python_yamp.Jsonrpc.{
  invalid_request, method_not_found, invalid_params, internal_error, optional_entry, request,
  notification, result, error, error_response, method_of,
}
use python_yamp.Pool.{
  admit, deadline, expired, cancel_request_id, progress_token, insert_by, sort_by, InFlight,
  new_inflight, register, touch, drop_call, count, at_capacity, overdue, expired_ids,
}
use python_yamp.Cache.{
  ttl_ms_key, cache_scope_key, public_scope, private_scope, Entry, ListCache, new_cache, serve,
  lookup, ttl_of, scope_of, put, drop_backend, invalidate_backend,
}
use python_yamp.Tasks.{
  tasks_methods, task_event_method, result_type_task, task_meta_key, is_task_result,
  is_task_augmented, new_task_id, TaskRecord, working, completed, cancelled, failed, status_of,
  result_of, error_of, unless_null, task_handle, prefix_at, prefix_task, namespace_task_id,
  resolve_task, prefix_param, namespace_event, ServerTasks, new_store, create, find_task,
  is_working, finish, complete, fail, cancel,
}
use python_yamp.Subscriptions.{
  subscribe_method, unsubscribe_method, updated_method, is_subscribe_method, updated_notification,
  namespace_updated, Subscriptions, no_subscriptions, discard, subscribe, unsubscribe,
}

-- what the router sends, and what it does to a pooled call: cancel it, or move its idle deadline
pub data Output : Type 0 where
  to_client : Message → Output
  to_observer : String → Message → Output
  to_backend : String → Message → Output
  cancel_call : Value → Output
  touch_call : Value → Output

pub record Router : Type 0 where
  pub single : Bool
  pub observed : Bool
  pub cache : Option ListCache
  pub seq : ℕ
  pub server_requests : Dict String (String × Value)
  -- whether an id is a running pooled call's
  pub pooled : Value → Bool
  -- the pooled call of a progress token
  pub token_to_call : Value → Option Value

abbrev pub list_changed_methods : List String
list_changed_methods =
    "notifications/tools/list_changed" ∷ "notifications/prompts/list_changed"
    ∷ "notifications/resources/list_changed" ∷ []

abbrev pub is_among : Value → List String → Bool
is_among (str s) ms = elem s ms
is_among _ ms = false

abbrev pub is_null : Value → Bool
is_null null = true
is_null _ = false

-- a request's id that the client sees
unfoldable pub srv_id : ℕ → String
srv_id seq = append "srv-" (show_ℕ seq)

-- `v in names`, for a frozenset: `none` where `v` is not hashable, a TypeError
abbrev pub in_set : Value → List String → Option Bool
in_set (arr vs) names = none
in_set (obj fs) names = none
in_set (str s) names = some (elem s names)
in_set _ names = some false

abbrev pub refreshed : String → Router → ListCache → Option Bool → Option Router
refreshed backend_id r c none = none
refreshed backend_id r c (some changed) =
    some (record r { cache = some (if changed then invalidate_backend backend_id c else c) })

abbrev pub refresh_cache : String → Message → Router → Option ListCache → Option Router
refresh_cache backend_id message r none = some r
refresh_cache backend_id message r (some c) =
    refreshed backend_id r c (in_set (method_of message) list_changed_methods)

-- the cached lists after a message of a backend; `none` where it raises
unfoldable pub refresh : String → Message → Router → Option Router
refresh backend_id message r = refresh_cache backend_id message r r.cache

-- the message with the ids that the client knows
unfoldable pub rewrite_event : String → Bool → Message → Message
rewrite_event backend_id single message =
    let event =
      if is_among (method_of message) (task_event_method ∷ [])
      then namespace_event message backend_id
      else message in
    if not single && is_among (method_of event) (updated_method ∷ [])
    then namespace_updated event backend_id
    else event

abbrev pub emit : Router → String → Message → Output
emit r backend_id message = if r.observed then to_observer backend_id message else to_client message

-- a request of a backend is given an id of the router's
abbrev pub correlate : String → Message → Option Value → Bool → Router → Router × List Output
correlate backend_id message (some id) true r =
    let client_id = srv_id (suc r.seq) in
    (
      record r {
        seq = suc r.seq;
        server_requests = insert r.server_requests client_id (backend_id, id);
      },
      emit r backend_id (insert message "id" (str client_id)) ∷ [],
    )
correlate backend_id message _ _ r = (r, emit r backend_id message ∷ [])

abbrev pub relay_message : String → Message → Option Router → Option (Router × List Output)
relay_message backend_id event none = none
relay_message backend_id event (some r) =
    some (correlate backend_id event (get event "id") (not (is_null (method_of event))) r)

-- `none` where it raises
unfoldable pub server_message : String → Message → Router → Option (Router × List Output)
server_message backend_id message r =
    relay_message backend_id (rewrite_event backend_id r.single message)
      (refresh backend_id message r)

-- self._server_requests.pop(id, None): `none` where the id is not hashable, a TypeError
unfoldable pub take_request : Value → Router → Option (Router × Option (String × Value))
take_request (arr vs) r = none
take_request (obj fs) r = none
take_request (str id) r =
    some (record r { server_requests = remove r.server_requests id }, get r.server_requests id)
take_request id r = some (r, none)

abbrev pub deliver_reply : Message → Router × Option (String × Value) → Router × List Output
deliver_reply message (r, none) = (r, [])
deliver_reply message (r, some (backend_id, id)) =
    (r, to_backend backend_id (insert message "id" id) ∷ [])

unfoldable pub route_client_reply : Message → Router → Option (Router × List Output)
route_client_reply message r = elim (take_request (get_value message "id") r) [
  | none ↦ none
  | some taken ↦ some (deliver_reply message taken)
]

-- `_params`
abbrev pub params_of : Message → Message
params_of message = dict_or_empty (get_value message "params")

abbrev pub deliver_cancel : Message → Router × Option (String × Value) → Router × List Output
deliver_cancel message (r, none) = (r, [])
deliver_cancel message (r, some (backend_id, id)) = (
  r,
  to_backend backend_id (insert message "params" (dict (insert (params_of message) "requestId" id)))
      ∷ [],
)

unfoldable pub route_client_cancellation : Message → Router → Option (Router × List Output)
route_client_cancellation message r =
    let id = get_value (params_of message) "requestId" in
    elim (take_request id r) [
      | none ↦ none
      | some taken ↦
          some (if r.pooled id then (r, cancel_call id ∷ []) else deliver_cancel message taken)
    ]

abbrev pub broadcast : List String → Message → List Output
broadcast backends message = map (λ b. to_backend b message) backends

abbrev pub touched : Option Value → List Output
touched none = []
touched (some id) = if is_null id then [] else touch_call id ∷ []

-- `_touch_progress`: `none` where the token is not hashable, a TypeError
abbrev pub touch_progress : Value → Router → Option (List Output)
touch_progress null r = some []
touch_progress (arr vs) r = none
touch_progress (obj fs) r = none
touch_progress token r = some (touched (r.token_to_call token))

unfoldable pub forward_client_notification :
    List String → Message → Router → Option (Router × List Output)
forward_client_notification backends message r =
    if is_among (method_of message) ("notifications/cancelled" ∷ [])
    then route_client_cancellation message r
    else elim (touch_progress (progress_token message) r) [
      | none ↦ none
      | some touches ↦ some (r, touches ++ broadcast backends message)
    ]

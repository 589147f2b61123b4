-- ===== src/Serving.antt =====
-- yamp/router.py: the route loop, which takes each message of the client to its handler.
mod Tests
pub mod Answers
use Prim.Native.String.{◌++◌ as append}
use python_yamp.Prelude.{
  ℕ, zero, suc, ◌+◌, ◌-◌, ◌*◌, ◌≤◌, ◌<◌, String, ◌≡◌, refl, sym, ap, ◌∙◌, subst, ◌≢◌, ◌↔◌, ◌⊎◌, inl,
  inr, Bool, true, false, not, ◌&&◌, ◌||◌, Option, none, some, List, [], ◌∷◌, ◌++◌, map, arith,
  eq_iff, eq_refl, ltb, leb, nat_beq, if◌then◌else◌, is_some, Bool-cases, Option-cases,
  some_injective, length, all, any, take, keep, length-append, All, All-append, Eq, ◌==◌, beq_refl,
  elem, int_beq_iff, char_beq_iff, char_eq, nat_eq, string_eq, option_eq, pair_eq, ℤ, pos, negsuc,
  pos_part, neg_part, ◌+ℤ◌, ◌≤ℤ◌, ltb_ℤ, leb_ℤ, int_eq,
}
use python_yamp.Prelude.Dict.{
  Dict, get, has, insert, remove, update, get_or, get-insert, get-remove, get-insert_self, keys,
  values, dict_laws,
}
use python_yamp.Json.{
  Value, null, bool, num, str, arr, obj, Items, nil, cons, Fields, end, field, Message, entries,
  of_entries, items, of_items, entries-of_entries, items-of_items, of_entries-entries, dict, list,
  get_value, dict_or_empty, as_str, as_dict,
}
use python_yamp.Jsonrpc.{
  invalid_request, method_not_found, invalid_params, internal_error, optional_entry, result, error,
  error_response, method_of,
}
use python_yamp.Router.{
  Output, to_client, to_observer, to_backend, cancel_call, touch_call, Router, list_changed_methods,
  is_null, srv_id, refresh, rewrite_event, emit, correlate, server_message, take_request,
  deliver_reply, route_client_reply, params_of, deliver_cancel, route_client_cancellation,
  broadcast, touched, touch_progress, forward_client_notification,
}
use python_yamp.Tasks.{
  tasks_methods, task_event_method, result_type_task, task_meta_key, is_task_result,
  is_task_augmented, new_task_id, TaskRecord, working, completed, cancelled, failed, status_of,
  result_of, error_of, unless_null, task_handle, prefix_at, prefix_task, namespace_task_id,
  resolve_task, prefix_param, namespace_event, ServerTasks, new_store, create, find_task,
  is_working, finish,
}
use python_yamp.Subscriptions.{
  subscribe_method, unsubscribe_method, updated_method, is_subscribe_method, updated_notification,
  namespace_updated, Subscriptions, no_subscriptions, discard, subscribe, unsubscribe,
}
use python_yamp.Variants.{
  extension_id, server_variant_meta_key, selected_variant, list_of, payload, ids_of,
  available_variants, supporting, in_all, offered_by_all, common_variants, compose_variants,
  or_null, mismatch_data, cursor_prefix, cursor_body, bind_cursor, texts_of, cursor_of, read_body,
  unprefixed, text_cursor, resolve_cursor,
}
use python_yamp.Content.{
  Segment, key, index, PathTo, Block, falsy, truthy_items, items_or_none, dict_or_none,
  resource_block, resource_blocks, own_block, type_of, content_block, contents_block, both,
  item_blocks, enumerated, list_blocks, result_blocks, blocks_of, blocks, nth, set_nth, child,
  put_child, put_back, write_at, set_value, set_text, set_bytes,
}
use python_yamp.Requests.{
  server_not_available, Sent, State, Routed, text_at, meta_at, traced, with_hop, trace_request,
  put_meta, trace_result, respond, error_part, refusal, relay_answer, send, forward_to, shape_task,
  local_handle, serve_local_task, resolved_task, task_named, route_task, register_uri, local_uri,
  resolved_uri, only_backend, uri_named, route_subscription,
}
use python_yamp.Aggregate.{
  CapabilityKind, tools_kind, prompts_kind, resources_kind, Listed, Host, Query, effective_variant,
  variant_error, label, restricted, asks, down_ids, cursor_entry, variant_entry, filter_entry,
  params_for, usable_cache, cache_hits,
}
use python_yamp.Aggregate.Answer.{
  Answered, named, local_tools, with_local, rename, renamed_all, manual_names, ranked, as_named,
  as_tool, disclosed, cursor_part, partial_part, with_directives, list_body, traced_answer, served,
  page_answer, is_none, by_cursor, aggregate,
}
use python_yamp.Calls.{
  Called, Settings, Libraries, params_in, id_of, value_in, run_in, filtered_by, filtered, schema_at,
  find_tool, args_error, result_error, traced_call, local_result, handled, dict_in, serve_local,
  inverse_of, backend_ids, empty_query, answer_result,
}
use python_yamp.Calls.Dispatch.{
  call_error, shaped_call, relayed_call, relay_call, principal_of, send_call, call_backend,
  resolved_call, warmed, passed_through, is_tools_call, route_name, route_text, route_other,
  with_name, handler_of, local_of, search_answer, query_in, search_page, serve_search, dispatch,
  call_named, after_chain, route_call,
}

-- The router, in the parts that its handlers use.
pub record Proxy : Type 0 where
  pub router : Router
  pub state : State
  pub host : Host
  pub settings : Settings
  pub pool_enabled : Bool

-- Which handler took a message, and what it gave; `crashed` is an exception of the loop itself.
pub data Reaction : Type 0 where
  relayed : Option (Router × List Output) → Reaction
  routed : Routed → Reaction
  listed : Answered → Reaction
  called : Called → Reaction
  -- a task that now runs, with the answer that names it
  started : String → Option Message → Reaction
  -- a call that the worker pool runs and answers
  pooled : Reaction
  refused : Message → Reaction
  crashed : Reaction

abbrev pub list_kind : String → Option CapabilityKind
list_kind method =
    if method == "tools/list"
    then some tools_kind
    else if method == "prompts/list"
    then some prompts_kind
    else if method == "resources/list"
    then some resources_kind
    else none

abbrev pub call_kind : String → Option CapabilityKind
call_kind method =
    if method == "tools/call"
    then some tools_kind
    else if method == "prompts/get"
    then some prompts_kind
    else if method == "resources/read"
    then some resources_kind
    else none

-- the texts of a list; what is no text in it is not modelled
abbrev pub texts_in : Value → List String
texts_in (arr vs) = texts (items vs)
  where
    texts : List Value → List String
    texts [] = []
    texts (str s ∷ vs) = s ∷ texts vs
    texts (_ ∷ vs) = texts vs
texts_in _ = []

-- the query, and whether its filter is a dict, or counts as an empty one
abbrev pub query_of : Message → Option Message → Query × Bool
query_of params filter = (
  record {
    words = texts_in (get_value (given filter) "keywords");
    patterns = texts_in (get_value (given filter) "namePatterns");
    filter = given filter;
    cursor = get_value params "cursor";
    variant = selected_variant (dict params);
  },
  is_some filter,
)
  where
    given : Option Message → Message
    given none = []
    given (some m) = m

-- the request's name, where it is a text
abbrev pub name_in : CapabilityKind → Message → Option String
name_in cap params = as_str (get_or params cap.field_name (str ""))

abbrev pub answer_of : Value → Option Value → Option Message
answer_of id none = none
answer_of id (some v) = some (result id v)

abbrev pub handle_answer : State → Value → String → Option Message
handle_answer s id task_id =
    answer_of id (trace_result s.trace (dict (task_handle task_id "working" null null)))

module _ (libs : Libraries) (available : String → Bool) (ask : Sent → Option Message) (now : ℤ)
    (hexed : Message → String) (unhexed : String → Option Value) where
  -- `_is_local_call`; `none` where the name is no text, on which `split` raises
  abbrev pub is_local_call : CapabilityKind → Host → Option String → Option Bool
  is_local_call cap h name =
      if not (is_tools_call libs available ask now cap) then some false else elim name [
        | none ↦ none
        | some n ↦ some (is_some (local_of libs available ask now cap h n))
      ]

  -- where a call runs: as a task, in the pool, or in the loop
  abbrev pub run_call : Proxy → CapabilityKind → Message → Option Bool → Reaction
  run_call p cap message none =
      if p.state.server_tasks || p.pool_enabled
      then crashed
      else called (route_call libs available ask now p.settings cap p.host message)
  run_call p cap message (some is_local) =
      let task_id = (create p.state.store).1 in
      if (p.state.server_tasks && is_local) && is_task_augmented (params_of message)
      then started task_id (handle_answer p.state (get_value message "id") task_id)
      else if p.pool_enabled && is_local
      then pooled
      else called (route_call libs available ask now p.settings cap p.host message)

  -- whether the list gets past the checks of its cursor, to where the filter is read
  abbrev pub past_cursor : Host → Query → Option (Option String × Dict String String) → Bool
  past_cursor h q none = is_none q.cursor || h.single
  past_cursor h q (some (variant, cursors)) = variant == effective_variant h.variants q.variant

  -- a filter that is no dict raises, where the cursor is not refused before
  abbrev pub list_answer : Proxy → CapabilityKind → Message → Query × Bool → Reaction
  list_answer p cap message (q, readable) =
      if not readable && past_cursor p.host q (resolve_cursor unhexed q.cursor)
      then crashed
      else listed (aggregate available ask now hexed unhexed cap p.host q (get_value message "id"))

  abbrev pub react_call : Proxy → Message → String → Option CapabilityKind → Reaction
  react_call p message method (some cap) =
      run_call p cap message (is_local_call cap p.host (name_in cap (params_of message)))
  react_call p message method none =
      refused
        (error (get_value message "id") (negsuc 32600) (append "method not routable: " method) none)

  abbrev pub react_list : Proxy → Message → String → Option CapabilityKind → Reaction
  react_list p message method (some cap) =
      list_answer p cap message
        (query_of (params_of message) (dict_or_none (get_value (params_of message) "filter")))
  react_list p message method none = react_call p message method (call_kind method)

  abbrev pub react_variant : Proxy → Message → String → Option Message → Reaction
  react_variant p message method (some e) = refused e
  react_variant p message method none =
      react_list p message method
        (if method == "server/discover" then some tools_kind else list_kind method)

  -- a request of the client
  unfoldable pub react_request : Proxy → Message → String → Reaction
  react_request p message method =
      let id = get_value message "id" in
      let params = params_of message in
      if elem method tasks_methods
      then routed (route_task available ask libs.trace_ids p.state id params method)
      else if is_subscribe_method (str method)
      then routed (route_subscription available ask libs.trace_ids p.state id params method)
      else react_variant p message method
          (variant_error p.host.variants id (selected_variant (dict params)))

  abbrev pub react_method : Proxy → Message → Value → Reaction
  react_method p message (str method) = react_request p message method
  react_method p message null = relayed (route_client_reply message p.router)
  react_method p message _ = crashed

  -- One turn of `_route_loop`, for a message as it is decoded. A method that is neither a text nor absent is
  -- not modelled.
  unfoldable pub react : Proxy → Message → Reaction
  react p message =
      if has message "id"
      then react_method p message (method_of message)
      else relayed (forward_client_notification p.state.backends message p.router)

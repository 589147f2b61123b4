-- ===== src/Router/Replies.antt =====
-- A client's reply to a backend's request reaches that backend, once, under the backend's own id.
use python_yamp.Prelude.{
  zero, suc, String, ◌≡◌, refl, sym, ◌==◌, ap, ◌∙◌, ◌≢◌, Bool, true, false, not, ◌&&◌, Option, none,
  some, List, [], ◌∷◌, arith, eq_iff, eq_refl, if◌then◌else◌, all, nat_eq, string_eq, option_eq,
  pair_eq, int_eq,
}
use python_yamp.Prelude.Dict.{get, insert, remove, get-insert, get-remove, get-insert_self}
use python_yamp.Json.{Value, null, str, obj, Message, entries, dict, get_value}
use python_yamp.Jsonrpc.{method_of}
use python_yamp.Namespace.{prefix, prefix_uri}
use python_yamp.Tasks.{task_event_method, prefix_param, namespace_event}
use python_yamp.Subscriptions.{updated_method, namespace_updated}
use python_yamp.Router.{
  to_observer, to_client, correlate, Output, to_backend, Router, is_among, is_null, srv_id,
  rewrite_event, server_message, take_request, deliver_reply, route_client_reply,
}
use python_yamp.Router.Correlation.{
  server_message_cases, Fresh, Event, run, quiet, server_message_lem, run_lem,
}

-- Rewriting an event touches only its `params`.
get-prefix_param :
    (k : String) (pre : String → String → String) (b : String) (m : Message) (v : Value)
    (j : String)
    → j ≢ "params"
    → get (prefix_param k pre b m v) j ≡ get m j
get-prefix_param k pre b m (obj params) j d =
    elim (get_value (entries params) k)
      as (λ x.
        get
          (elim x [
            | str s ↦ insert m "params" (dict (insert (entries params) k (str (pre b s))))
            | _ ↦ m
          ])
          j
        ≡ get m j) [ str s ↦ rw get-insert (ground (arith, eq_iff "params" j)) | _ ↦ refl ]
get-prefix_param k pre b m null j d = refl
get-prefix_param k pre b m _ j d = refl

get-rewrite_event :
    (b : String) (single : Bool) (m : Message) (j : String)
    → j ≢ "params"
    → get (rewrite_event b single m) j ≡ get m j
unfolding rewrite_event namespace_event namespace_updated
get-rewrite_event b single m j d =
    elim (is_among (method_of m) (task_event_method ∷ []))
      as (λ x.
        get
          (let event = if x then namespace_event m b else m in
            if not single && is_among (method_of event) (updated_method ∷ [])
            then namespace_updated event b
            else event)
          j
        ≡ get m j) [
          | true ↦
              updated (namespace_event m b)
              ∙ get-prefix_param "taskId" prefix b m (get_value m "params") j d
          | false ↦ updated m
        ]
  where
    updated :
        (event : Message)
        → get
            (if not single && is_among (method_of event) (updated_method ∷ [])
              then namespace_updated event b
              else event)
            j
          ≡ get event j
    updated event =
        elim (not single && is_among (method_of event) (updated_method ∷ []))
          as (λ x. get (if x then namespace_updated event b else event) j ≡ get event j) [
            | true ↦ get-prefix_param "uri" prefix_uri b event (get_value event "params") j d
            | false ↦ refl
          ]

method_kept :
    (b : String) (single : Bool) (m : Message) → method_of (rewrite_event b single m) ≡ method_of m
method_kept b single m =
    ap (λ o. elim o as (λ _. Value) [ none ↦ null | some v ↦ v ])
      (get-rewrite_event b single m "method" (ground (arith, eq_iff "method" "params")))

id_kept :
    (b : String) (single : Bool) (m : Message) (id : Value)
    → get m "id" ≡ some id
    → get (rewrite_event b single m) "id" ≡ some id
id_kept b single m id h =
    get-rewrite_event b single m "id" (ground (arith, eq_iff "id" "params")) ∙ h

-- What a request of a backend leaves: a new id, which stands for the backend and its own id, and the
-- request under the new id on its way to the client, or to the observer in its place; its other members
-- are as they came, its `params` apart.
pub record Asked (b : String) (m : Message) (id : Value) (r r' : Router) (out : List Output)
    : Type 0 where
  pub event : Message
  pub seq : r'.seq ≡ suc r.seq
  pub entry : get r'.server_requests (srv_id (suc r.seq)) ≡ some (b, id)
  pub sent : out ≡ (if r.observed then to_observer b event else to_client event) ∷ []
  pub shown : get event "id" ≡ some (str (srv_id (suc r.seq)))
  pub others : (j : String) → j ≢ "id" → j ≢ "params" → get event j ≡ get m j

server_message_asks :
    (b : String) (m : Message) (r r' : Router) (out : List Output) (id : Value)
    → get m "id" ≡ some id
    → is_null (method_of m) ≡ false
    → server_message b m r ≡ some (r', out)
    → Asked b m id r r' out
server_message_asks b m r r' out id h a s =
    let (c, e) = server_message_cases b m r r' out s in
    let given : (
      record r {
        cache = c;
        seq = suc r.seq;
        server_requests = insert r.server_requests (srv_id (suc r.seq)) (b, id);
      },
      (if r.observed then to_observer b event else to_client event) ∷ [],
    )
        ≡ (r', out) =
      sym (
        ap
          (λ o.
            correlate b rewritten o (not (is_null (method_of rewritten))) (record r { cache = c }))
          (id_kept b r.single m id h)
        ∙ ap (λ v. correlate b rewritten (some id) (not (is_null v)) (record r { cache = c }))
            (method_kept b r.single m)
        ∙ ap (λ x. correlate b rewritten (some id) (not x) (record r { cache = c })) a)
      ∙ e in
    record {
      event = event;
      seq = ap (λ x. x.0.seq) (sym given);
      entry =
          ap (λ x. get x.0.server_requests (srv_id (suc r.seq))) (sym given)
          ∙ get-insert_self r.server_requests (srv_id (suc r.seq)) (b, id);
      sent = ap (λ x. x.1) (sym given);
      shown = get-insert_self rewritten "id" (str (srv_id (suc r.seq)));
      others = λ j d e.
          get-insert rewritten "id" j (str (srv_id (suc r.seq)))
          ∙ different j d
          ∙ get-rewrite_event b r.single m j e;
    }
  where
    rewritten : Message
    rewritten = rewrite_event b r.single m

    event : Message
    event = insert rewritten "id" (str (srv_id (suc r.seq)))

    different :
        (j : String)
        → j ≢ "id"
        → (if "id" == j then some (str (srv_id (suc r.seq))) else get rewritten j) ≡ get rewritten j
    different j d = ground (arith, eq_iff "id" j)

answered :
    (c b : String) (id : Value) (answer : Message) (r : Router)
    → get r.server_requests c ≡ some (b, id)
    → get_value answer "id" ≡ str c
    → (after : Router) × (route_client_reply answer r
        ≡ some (after, to_backend b (insert answer "id" id) ∷ []))
      × (get after.server_requests c ≡ none)
unfolding route_client_reply take_request
answered c b id answer r e h = (
  record r { server_requests = remove r.server_requests c },
  given h ∙ rw e refl,
  rw get-remove (rw (eq_refl c) refl),
)
  where
    given :
        get_value answer "id" ≡ str c
        → route_client_reply answer r
          ≡ some (
              deliver_reply answer (
                record r { server_requests = remove r.server_requests c },
                get r.server_requests c,
              ))
    given h =
        ap
          (λ v. elim (take_request v r) as (λ _. Option (Router × List Output)) [
            | none ↦ none
            | some taken ↦ some (deliver_reply answer taken)
          ])
          h

-- Where the router's ids to come are in no use, a request of a backend that raises nothing reaches the
-- client, or the observer in its place, under the id that the router mints for it, with its members but
-- `params` as they came, and it stays answerable: after any further events that raise nothing and neither
-- answer nor cancel that id, the client's reply to it is sent to the backend that asked, and to it
-- alone, under the backend's own id, and the id is forgotten, so that a second reply finds nothing.
pub reply_returns :
    (b : String) (m : Message) (id : Value) (es : List Event) (answer : Message) (r r0 r' : Router)
    (out : List Output)
    → Fresh r
    → get m "id" ≡ some id
    → is_null (method_of m) ≡ false
    → server_message b m r ≡ some (r0, out)
    → run es r0 ≡ some r'
    → all (quiet (srv_id (suc r.seq))) es ≡ true
    → get_value answer "id" ≡ str (srv_id (suc r.seq))
    → Asked b m id r r0 out
      × ((after : Router) × (route_client_reply answer r'
            ≡ some (after, to_backend b (insert answer "id" id) ∷ []))
          × (get after.server_requests (srv_id (suc r.seq)) ≡ none))
reply_returns b m id es answer r r0 r' out f h a s e q i =
    let asked = server_message_asks b m r r0 out id h a s in
    let kept =
      run_lem (suc r.seq) es r0 r' (omega (arith, asked.seq))
        (server_message_lem zero b m r r0 out (omega arith) f s).fresh e q in
    (asked, answered (srv_id (suc r.seq)) b id answer r' (kept.entry ∙ asked.entry) i)

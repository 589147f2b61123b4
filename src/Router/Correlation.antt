-- ===== src/Router/Correlation.antt =====
-- What the events between a backend's request and the client's reply leave of its correlation.
use python_yamp.Prelude.{
  ℕ, suc, ◌≤◌, ◌<◌, String, ◌≡◌, refl, sym, ap, ◌∙◌, subst, inl, inr, Bool, true, false, not,
  Option, none, some, List, [], ◌∷◌, arith, eq_iff, if◌then◌else◌, Bool-cases, some_injective, all,
  ◌==◌, nat_eq, string_eq, option_eq, pair_eq, int_eq,
}
use python_yamp.Prelude.Dict.{get, remove, get-insert, get-remove}
use python_yamp.Json.{Value, null, bool, num, str, arr, obj, Message, get_value}
use text.Mathlib.TextLemmas.{append_cancel_left}
use python_yamp.Prelude.Text.{show_ℕ-injective}
use python_yamp.Jsonrpc.{method_of}
use python_yamp.Cache.{ListCache, invalidate_backend}
use python_yamp.Router.{
  in_set, refreshed, refresh_cache, relay_message, list_changed_methods, Output, cancel_call,
  Router, is_null, srv_id, refresh, rewrite_event, correlate, server_message, take_request,
  deliver_reply, route_client_reply, params_of, deliver_cancel, route_client_cancellation,
}

srv_id-injective : (m n : ℕ) → srv_id m ≡ srv_id n → m ≡ n
unfolding srv_id
srv_id-injective m n h = show_ℕ-injective m n (append_cancel_left "srv-" _ _ h)

srv_id_later : (m n : ℕ) → m < n → (srv_id n == srv_id m) ≡ false
srv_id_later m n h = elim (Bool-cases (srv_id n == srv_id m)) [
  | inl same ↦ absurd (omega (arith, srv_id-injective n m ((eq_iff _ _).0 same)))
  | inr other ↦ other
]

srv_id_earlier : (m n : ℕ) → n < m → (srv_id n == srv_id m) ≡ false
srv_id_earlier m n h = elim (Bool-cases (srv_id n == srv_id m)) [
  | inl same ↦ absurd (omega (arith, srv_id-injective n m ((eq_iff _ _).0 same)))
  | inr other ↦ other
]

-- The ids to come are in no use.
abbrev pub Fresh : Router → Type 0
Fresh r = (n : ℕ) → r.seq < n → get r.server_requests (srv_id n) ≡ none

-- what arrives between two moments
pub data Event : Type 0 where
  server : String → Message → Event
  reply cancellation : Message → Event

abbrev pub step : Event → Router → Option (Router × List Output)
step (server backend_id message) r = server_message backend_id message r
step (reply message) r = route_client_reply message r
step (cancellation message) r = route_client_cancellation message r

-- the router after the events, where none of them raises
unfoldable pub run : List Event → Router → Option Router
run [] r = some r
run (e ∷ es) r = elim (step e r) [ none ↦ none | some (r', out) ↦ run es r' ]

abbrev pub is_id : String → Value → Bool
is_id c (str s) = s == c
is_id c _ = false

-- whether the event does not answer or cancel the request with this id
abbrev pub quiet : String → Event → Bool
quiet c (server b m) = true
quiet c (reply m) = not (is_id c (get_value m "id"))
quiet c (cancellation m) = not (is_id c (get_value (params_of m) "requestId"))

-- What one event leaves alone.
pub record Keeps (c : String) (r r' : Router) : Type 0 where
  pub entry : get r'.server_requests c ≡ get r.server_requests c
  pub later : r.seq ≤ r'.seq
  pub fresh : Fresh r'

correlate_lem :
    (k : ℕ) (b : String) (m : Message) (i : Option Value) (asks : Bool) (r : Router)
    → k ≤ r.seq
    → Fresh r
    → Keeps (srv_id k) r (correlate b m i asks r).0
correlate_lem k b m (some i) true r l f = record {
  entry = rw (get-insert, srv_id_later k (suc r.seq) (omega arith)) refl;
  later = omega arith;
  fresh = λ n above. rw (get-insert, srv_id_earlier n (suc r.seq) above) (f n (omega arith));
}
correlate_lem k b m (some i) false r l f = record { entry = refl; later = omega arith; fresh = f }
correlate_lem k b m none asks r l f = record { entry = refl; later = omega arith; fresh = f }

pub Keeps-self : (c : String) (r : Router) → Fresh r → Keeps c r r
Keeps-self c r f = record { entry = refl; later = omega arith; fresh = f }

Keeps-trans : (c : String) (r s t : Router) → Keeps c r s → Keeps c s t → Keeps c r t
Keeps-trans c r s t k l = record {
  entry = l.entry ∙ k.entry;
  later = omega (arith, k.later, l.later);
  fresh = l.fresh;
}

Keeps-remove :
    (k : ℕ) (id : String) (r : Router)
    → Fresh r
    → (id == srv_id k) ≡ false
    → Keeps (srv_id k) r (record r { server_requests = remove r.server_requests id })
Keeps-remove k id r f q = record {
  entry = rw (get-remove, q) refl;
  later = omega arith;
  fresh = λ n above. rw get-remove (ground (arith, f n above));
}

take_request_lem :
    (k : ℕ) (v : Value) (r : Router) (taken : Router × Option (String × Value))
    → Fresh r
    → take_request v r ≡ some taken
    → is_id (srv_id k) v ≡ false
    → Keeps (srv_id k) r taken.0
unfolding take_request
take_request_lem k (str id) r taken f h q =
    subst (λ x. Keeps (srv_id k) r x.0) (some_injective _ taken h) (Keeps-remove k id r f q)
take_request_lem k (arr vs) r taken f h q = absurd (ground arith)
take_request_lem k (obj fs) r taken f h q = absurd (ground arith)
take_request_lem k null r taken f h q =
    subst (λ x. Keeps (srv_id k) r x.0) (some_injective _ taken h) (Keeps-self _ r f)
take_request_lem k (bool b) r taken f h q =
    subst (λ x. Keeps (srv_id k) r x.0) (some_injective _ taken h) (Keeps-self _ r f)
take_request_lem k (num n) r taken f h q =
    subst (λ x. Keeps (srv_id k) r x.0) (some_injective _ taken h) (Keeps-self _ r f)

deliver_reply_lem :
    (m : Message) (t : Router × Option (String × Value)) → (deliver_reply m t).0 ≡ t.0
deliver_reply_lem m (r, none) = refl
deliver_reply_lem m (r, some (b, i)) = refl

deliver_cancel_lem :
    (m : Message) (t : Router × Option (String × Value)) → (deliver_cancel m t).0 ≡ t.0
deliver_cancel_lem m (r, none) = refl
deliver_cancel_lem m (r, some (b, i)) = refl

route_client_reply_lem :
    (k : ℕ) (m : Message) (r r' : Router) (out : List Output)
    → Fresh r
    → route_client_reply m r ≡ some (r', out)
    → is_id (srv_id k) (get_value m "id") ≡ false
    → Keeps (srv_id k) r r'
unfolding route_client_reply
route_client_reply_lem k m r r' out f h q = go (take_request (get_value m "id") r) refl h
  where
    go :
        (o : Option (Router × Option (String × Value)))
        → take_request (get_value m "id") r ≡ o
        → elim o as (λ _. Option (Router × List Output)) [
          | none ↦ none
          | some taken ↦ some (deliver_reply m taken)
        ]
          ≡ some (r', out)
        → Keeps (srv_id k) r r'
    go none e h = absurd (ground arith)
    go (some taken) e h =
        subst (Keeps (srv_id k) r)
          (sym (deliver_reply_lem m taken) ∙ ap (λ x. x.0) (some_injective _ (r', out) h))
          (take_request_lem k (get_value m "id") r taken f e q)

route_client_cancellation_lem :
    (k : ℕ) (m : Message) (r r' : Router) (out : List Output)
    → Fresh r
    → route_client_cancellation m r ≡ some (r', out)
    → is_id (srv_id k) (get_value (params_of m) "requestId") ≡ false
    → Keeps (srv_id k) r r'
unfolding route_client_cancellation
route_client_cancellation_lem k m r r' out f h q = go (take_request id r) refl (r.pooled id) h
  where
    id : Value
    id = get_value (params_of m) "requestId"

    go :
        (o : Option (Router × Option (String × Value)))
        → take_request id r ≡ o
        → (p : Bool)
        → elim o as (λ _. Option (Router × List Output)) [
          | none ↦ none
          | some taken ↦ some (if p then (r, cancel_call id ∷ []) else deliver_cancel m taken)
        ]
          ≡ some (r', out)
        → Keeps (srv_id k) r r'
    go none e p h = absurd (ground arith)
    go (some taken) e true h =
        subst (Keeps (srv_id k) r) (ap (λ x. x.0) (some_injective _ (r', out) h)) (Keeps-self _ r f)
    go (some taken) e false h =
        subst (Keeps (srv_id k) r)
          (sym (deliver_cancel_lem m taken) ∙ ap (λ x. x.0) (some_injective _ (r', out) h))
          (take_request_lem k id r taken f e q)

-- A message of a backend that raises nothing is correlated, with the cache as it may be.
pub server_message_cases :
    (b : String) (m : Message) (r r' : Router) (out : List Output)
    → server_message b m r ≡ some (r', out)
    → (c : Option ListCache) × (correlate b
          (rewrite_event b r.single m)
          (get (rewrite_event b r.single m) "id")
          (not (is_null (method_of (rewrite_event b r.single m))))
          (record r { cache = c })
        ≡ (r', out))
unfolding server_message refresh
server_message_cases b m r r' out h = uncached r.cache refl h
  where
    event : Message
    event = rewrite_event b r.single m

    Correlated : Type 0
    Correlated =
        (c : Option ListCache) × (correlate b event (get event "id")
            (not (is_null (method_of event))) (record r { cache = c })
          ≡ (r', out))

    cached :
        (c : ListCache) (o : Option Bool)
        → relay_message b event (refreshed b r c o) ≡ some (r', out)
        → Correlated
    cached c none h = absurd (ground arith)
    cached c (some changed) h =
        (some (if changed then invalidate_backend b c else c), some_injective _ (r', out) h)

    uncached :
        (o : Option ListCache)
        → r.cache ≡ o
        → relay_message b event (refresh_cache b m r o) ≡ some (r', out)
        → Correlated
    uncached none e h = (r.cache, some_injective _ (r', out) h)
    uncached (some c) e h = cached c (in_set (method_of m) list_changed_methods) h

pub server_message_lem :
    (k : ℕ) (b : String) (m : Message) (r r' : Router) (out : List Output)
    → k ≤ r.seq
    → Fresh r
    → server_message b m r ≡ some (r', out)
    → Keeps (srv_id k) r r'
server_message_lem k b m r r' out l f h =
    let event = rewrite_event b r.single m in
    let (c, e) = server_message_cases b m r r' out h in
    let kept =
      correlate_lem k b event (get event "id") (not (is_null (method_of event)))
        (record r { cache = c }) l f in
    subst (Keeps (srv_id k) r) (ap (λ x. x.0) e)
      (record { entry = kept.entry; later = kept.later; fresh = kept.fresh })

step_lem :
    (k : ℕ) (e : Event) (r r' : Router) (out : List Output)
    → k ≤ r.seq
    → Fresh r
    → step e r ≡ some (r', out)
    → quiet (srv_id k) e ≡ true
    → Keeps (srv_id k) r r'
step_lem k (server b m) r r' out l f h q = server_message_lem k b m r r' out l f h
step_lem k (reply m) r r' out l f h q = route_client_reply_lem k m r r' out f h (ground arith)
step_lem k (cancellation m) r r' out l f h q =
    route_client_cancellation_lem k m r r' out f h (ground arith)

pub run_lem :
    (k : ℕ) (es : List Event) (r r' : Router)
    → k ≤ r.seq
    → Fresh r
    → run es r ≡ some r'
    → all (quiet (srv_id k)) es ≡ true
    → Keeps (srv_id k) r r'
unfolding run
run_lem k [] r r' l f h q = subst (Keeps (srv_id k) r) (some_injective r r' h) (Keeps-self _ r f)
run_lem k (e ∷ es) r r' l f h q =
    go (step e r) refl h (λ s m g h. run_lem k es s r' m g h (ground arith))
  where
    go :
        (o : Option (Router × List Output))
        → step e r ≡ o
        → elim o as (λ _. Option Router) [ none ↦ none | some (s, out) ↦ run es s ] ≡ some r'
        → ((s : Router) → k ≤ s.seq → Fresh s → run es s ≡ some r' → Keeps (srv_id k) s r')
        → Keeps (srv_id k) r r'
    go none d h later = absurd (ground arith)
    go (some (s, out)) d h later =
        let k1 = step_lem k e r s out l f d (ground arith) in
        Keeps-trans _ r s r' k1 (later s (omega (arith, l, k1.later)) k1.fresh h)

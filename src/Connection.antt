-- ===== src/Connection.antt =====
-- yamp/router.py: `Backend`, one backend's connection: its pending requests, and the loop that reads.
mod Tests
pub mod Soundness
pub mod Matching
use Prim.Native.String.{◌++◌ as append}
use python_yamp.Prelude.{
  ℕ, zero, suc, ◌+◌, ◌-◌, ◌*◌, ◌≤◌, ◌<◌, String, ◌≡◌, refl, sym, ap, ◌∙◌, subst, ◌≢◌, ◌↔◌, ◌⊎◌, inl,
  inr, Bool, true, false, not, ◌&&◌, ◌||◌, Option, none, some, List, [], ◌∷◌, ◌++◌, map, arith,
  eq_iff, eq_refl, ltb, leb, nat_beq, if◌then◌else◌, is_some, Bool-cases, Option-cases,
  some_injective, length, all, any, take, keep, length-append, All, All-append, Eq, ◌==◌, beq_refl,
  elem, int_beq_iff, char_beq_iff, char_eq, nat_eq, string_eq, option_eq, pair_eq, ℤ, pos, negsuc,
  pos_part, neg_part, ◌+ℤ◌, ◌≤ℤ◌, ltb_ℤ, leb_ℤ, int_eq,
}
use python_yamp.Prelude.Dict.{
  Dict, get, has, insert, remove, update, get_or, get-insert, get-remove, get-insert_self, keys,
  values, dict_laws,
}
use python_yamp.Json.{
  Value, null, bool, num, str, arr, obj, Items, nil, cons, Fields, end, field, Message, entries,
  of_entries, items, of_items, entries-of_entries, items-of_items, of_entries-entries, dict, list,
  get_value, dict_or_empty, as_str, as_dict,
}
use python_yamp.Prelude.Text.{show_ℕ}
use python_yamp.Jsonrpc.{request}
use python_yamp.Namespace.{valid_backend_id}
use python_yamp.Auth.{authorization_key, forward_meta}
use python_yamp.Content.{dict_or_none}
use python_yamp.Resilience.Breaker.{CircuitBreaker, record_success, record_failure, allow}

-- What a request waits for.
pub data Future : Type 0 where
  waiting failed timed_out : Future
  resolved : Message → Future

-- `futures` holds the future of every request there was, since its caller keeps it; `pending` has the
-- ids that the router still knows. `reading` is whether the loop runs.
pub record Connection : Type 0 where
  pub id : String
  pub token : Option String
  pub next_id : ℕ
  pub futures : Dict String Future
  pub pending : List String
  pub breaker : Option CircuitBreaker
  pub reading : Bool

-- `none` where the id is refused
unfoldable pub new_connection : String → Option String → Option CircuitBreaker → Option Connection
new_connection id token breaker =
    if valid_backend_id id
    then some (record {
      id = id;
      token = token;
      next_id = 0;
      futures = [];
      pending = [];
      breaker = breaker;
      reading = true;
    })
    else none

unfoldable pub is_available : ℕ → Option CircuitBreaker → Option CircuitBreaker × Bool
is_available now none = (none, true)
is_available now (some b) = (some (allow now b).0, (allow now b).1)

abbrev has_credential : Option Message → Bool
has_credential none = false
has_credential (some meta) = has meta authorization_key

abbrev with_credential : Message → Option String → Option Message → Option Message
with_credential params token none = none
with_credential params token (some meta) =
    some (insert params "_meta" (dict (forward_meta meta token)))

-- the params as the backend sees them; `none` where `_meta` is a value that `dict` refuses
unfoldable pub credentialed : Message → Option String → Option Message
credentialed params token =
    if is_some token || has_credential (as_dict (get_value params "_meta"))
    then with_credential params token (dict_or_none (get_value params "_meta"))
    else some params

-- the id of a connection's n-th request
unfoldable pub request_id : String → ℕ → String
request_id id n = append id (append "-" (show_ℕ n))

abbrev pub issued : Connection → String → Option Message → Option (Connection × Message)
issued c method none = none
issued c method (some params) =
    let mid = request_id c.id (suc c.next_id) in
    some (
      record c {
        next_id = suc c.next_id;
        futures = insert c.futures mid waiting;
        pending = c.pending ++ (mid ∷ []);
      },
      request (str mid) method (some params),
    )

-- `request` up to the send
unfoldable pub start_request : String → Message → Connection → Option (Connection × Message)
start_request method params c = issued c method (credentialed params c.token)

-- a future that is done keeps what it has
unfoldable pub settle : Future → Future → Future
settle outcome waiting = outcome
settle outcome f = f

abbrev pub settled : Future → Option Future → Option Future
settled outcome none = none
settled outcome (some f) = some (settle outcome f)

abbrev pub put_settled : Dict String Future → String → Future → Option Future → Dict String Future
put_settled futures mid outcome none = futures
put_settled futures mid outcome (some f) = insert futures mid (settle outcome f)

unfoldable pub settle_at : String → Future → Dict String Future → Dict String Future
settle_at mid outcome futures = put_settled futures mid outcome (get futures mid)

abbrev pub dropped : String → List String → List String
dropped mid [] = []
dropped mid (p ∷ ps) = let rest = dropped mid ps in if p == mid then rest else p ∷ rest

unfoldable pub fail_all : List String → Dict String Future → Dict String Future
fail_all [] futures = futures
fail_all (mid ∷ mids) futures = fail_all mids (settle_at mid failed futures)

-- the `finally` of the loop
unfoldable pub shut : Connection → Connection
shut c = record c { futures = fail_all c.pending c.futures; pending = []; reading = false }

-- a message that answers no request goes to the sink
pub data Taken : Type 0 where
  answer unhashable : Taken
  for_sink : Message → Taken

abbrev pub take_answer : Message → Option Value → Connection → Connection × Taken
take_answer message (some (str mid)) c =
    if elem mid c.pending
    then (
      record c {
        futures = settle_at mid (resolved message) c.futures;
        pending = dropped mid c.pending;
      },
      answer,
    )
    else (c, for_sink message)
take_answer message (some (arr vs)) c = (shut c, unhashable)
take_answer message (some (obj fs)) c = (shut c, unhashable)
take_answer message _ c = (c, for_sink message)

-- one turn of `_read_loop`: an id that is not hashable raises a TypeError, which ends the loop
unfoldable pub receive : Message → Connection → Connection × Taken
receive message c = take_answer message (get message "id") c

unfoldable pub told_failure : ℕ → Option CircuitBreaker → Option CircuitBreaker
told_failure now none = none
told_failure now (some b) = some (record_failure now b)

unfoldable pub told_success : Option CircuitBreaker → Option CircuitBreaker
told_success none = none
told_success (some b) = some (record_success b)

-- a request whose time is over, before it is answered: `wait_for` cancels its future
unfoldable pub expire : ℕ → String → Connection → Connection
expire now mid c = record c {
  futures = settle_at mid timed_out c.futures;
  pending = dropped mid c.pending;
  breaker = told_failure now c.breaker;
}

abbrev pub concluded : ℕ → String → Connection → Option Future → Connection
concluded now mid c (some (resolved m)) = record c { breaker = told_success c.breaker }
concluded now mid c (some failed) = record c {
  pending = dropped mid c.pending;
  breaker = told_failure now c.breaker;
}
concluded now mid c _ = c

-- the rest of `request`, once its future is done
unfoldable pub conclude : ℕ → String → Connection → Connection
conclude now mid c = concluded now mid c (get c.futures mid)

abbrev greeted : Option Value → Option (Value × Value)
greeted none = some (dict [], null)
greeted (some (obj fs)) =
    some (get_or (entries fs) "capabilities" (dict []), get_value (entries fs) "serverInfo")
greeted (some v) = none

-- the capabilities and the identity that `handshake` keeps; `none` where it raises
unfoldable pub handshake : Message → Option (Value × Value)
handshake init = greeted (get init "result")

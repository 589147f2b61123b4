-- ===== src/Pool.antt =====
-- yamp/pool.py: admission, idle deadlines and the in-flight registry of server-originated calls.
-- The clock is an argument, in milliseconds. Request ids are any type of keys.
pub mod Reaping
use Prim.Native.String.{compare as compare_str}
use text.Mathlib.Text.{is_le}
use python_yamp.Prelude.{
  ℕ, zero, suc, ◌+◌, ◌-◌, ◌*◌, ◌≤◌, ◌<◌, String, ◌≡◌, refl, sym, ap, ◌∙◌, subst, ◌≢◌, ◌↔◌, ◌⊎◌, inl,
  inr, Bool, true, false, not, ◌&&◌, ◌||◌, Option, none, some, List, [], ◌∷◌, ◌++◌, map, arith,
  eq_iff, eq_refl, ltb, leb, nat_beq, if◌then◌else◌, is_some, Bool-cases, Option-cases, length, all,
  any, take, keep, length-append, All, All-append, Eq, ◌==◌, beq_refl, elem, nat_eq, string_eq,
  option_eq, pair_eq, ℤ, pos, negsuc, pos_part, neg_part, ◌+ℤ◌, ◌≤ℤ◌, ltb_ℤ, leb_ℤ, int_eq,
}
use python_yamp.Prelude.Dict.{
  Dict, get, has, insert, remove, update, get_or, get-insert, get-remove, get-insert_self, keys,
  values, dict_laws,
}
use python_yamp.Json.{
  Value, null, bool, num, str, arr, obj, Items, nil, cons, Fields, end, field, Message, entries,
  of_entries, items, of_items, entries-of_entries, dict, list, get_value, dict_or_empty, as_str,
  as_dict,
}
use python_yamp.Jsonrpc.{method_of}

unfoldable pub admit : ℕ → ℤ → Bool
admit in_flight cap = if leb_ℤ cap (pos 0) then true else ltb_ℤ (pos in_flight) cap

unfoldable pub deadline : ℤ → ℤ → ℤ
deadline now_ms idle_ms = if leb_ℤ idle_ms (pos 0) then pos 0 else now_ms +ℤ idle_ms

unfoldable pub expired : ℤ → ℤ → Bool
expired deadline_ms now_ms = if leb_ℤ deadline_ms (pos 0) then false else leb_ℤ deadline_ms now_ms

abbrev param_of : String → Value → Value
param_of k (obj fs) = get_value (entries fs) k
param_of k _ = null

abbrev is_str : String → Value → Bool
is_str s (str t) = t == s
is_str s _ = false

unfoldable pub cancel_request_id : Message → Value
cancel_request_id message =
    if is_str "notifications/cancelled" (method_of message)
    then param_of "requestId" (get_value message "params")
    else null

unfoldable pub progress_token : Message → Value
progress_token message =
    if is_str "notifications/progress" (method_of message)
    then param_of "progressToken" (get_value message "params")
    else null

-- sorted(ids, key=repr): a stable insertion sort by the texts
module _ {ℓ} {CallId : Type ℓ} where
  unfoldable pub insert_by : (CallId → String) → CallId → List CallId → List CallId
  insert_by repr a [] = a ∷ []
  insert_by repr a (b ∷ bs) =
      if is_le (compare_str (repr a) (repr b)) then a ∷ (b ∷ bs) else b ∷ insert_by repr a bs

  unfoldable pub sort_by : (CallId → String) → List CallId → List CallId
  sort_by repr [] = []
  sort_by repr (a ∷ as_) = insert_by repr a (sort_by repr as_)

pub record InFlight {ℓ} (CallId : Type ℓ) : Type ℓ where
  pub deadlines : Dict CallId ℤ

abbrev pub new_inflight {ℓ} : {CallId : Type ℓ} → InFlight CallId
new_inflight = record { deadlines = [] }

module _ {ℓ} {CallId : Type ℓ} ⦃e : Eq CallId⦄ where
  unfoldable pub register : CallId → ℤ → InFlight CallId → InFlight CallId
  register id deadline_ms s = record { deadlines = insert s.deadlines id deadline_ms }

  unfoldable pub contains : CallId → InFlight CallId → Bool
  contains id s = has s.deadlines id

  unfoldable pub touch : CallId → ℤ → InFlight CallId → InFlight CallId × Bool
  touch id deadline_ms s =
      if has s.deadlines id
      then (record { deadlines = insert s.deadlines id deadline_ms }, true)
      else (s, false)

  unfoldable pub drop_call : CallId → InFlight CallId → InFlight CallId × Bool
  drop_call id s = (record { deadlines = remove s.deadlines id }, has s.deadlines id)

  unfoldable pub count : InFlight CallId → ℕ
  count s = length s.deadlines

  unfoldable pub at_capacity : ℤ → InFlight CallId → Bool
  unfolding count
  at_capacity cap s = not (admit (count s) cap)

  abbrev pub overdue : ℤ → Dict CallId ℤ → List CallId
  overdue now_ms [] = []
  overdue now_ms ((id, d) ∷ ds) = elim (expired d now_ms) [
    | true ↦ id ∷ overdue now_ms ds
    | false ↦ overdue now_ms ds
  ]

  unfoldable pub expired_ids : (CallId → String) → ℤ → InFlight CallId → List CallId
  expired_ids repr now_ms s = sort_by repr (overdue now_ms s.deadlines)

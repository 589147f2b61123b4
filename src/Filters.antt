-- ===== src/Filters.antt =====
-- yamp/filters.py: the filter chain, its verdicts and the failure policy.
pub mod Chain
pub mod Interests
mod Tests
use python_yamp.Prelude.{
  ℕ, zero, suc, ◌+◌, ◌-◌, ◌*◌, ◌≤◌, ◌<◌, String, ◌≡◌, refl, sym, ap, ◌∙◌, subst, ◌≢◌, ◌↔◌, ◌⊎◌, inl,
  inr, Bool, true, false, not, ◌&&◌, ◌||◌, Option, none, some, List, [], ◌∷◌, ◌++◌, map, arith,
  eq_iff, eq_refl, ltb, leb, nat_beq, if◌then◌else◌, is_some, Bool-cases, Option-cases, length, all,
  any, take, keep, length-append, All, All-append, Eq, ◌==◌, beq_refl, elem, nat_eq, string_eq,
  option_eq, pair_eq, ℤ, pos, negsuc, pos_part, neg_part, ◌+ℤ◌, ◌≤ℤ◌, ltb_ℤ, leb_ℤ, int_eq,
}
use python_yamp.Prelude.Dict.{
  Dict, get, has, insert, remove, update, get_or, get-insert, get-remove, get-insert_self, keys,
  values, dict_laws,
}
use python_yamp.Json.{
  Value, null, bool, num, str, arr, obj, Items, nil, cons, Fields, end, field, Message, entries,
  of_entries, items, of_items, entries-of_entries, dict, list, get_value, dict_or_empty, as_str,
  as_dict,
}
use python_yamp.Jsonrpc.{error}

-- errors.POLICY_DENIED
abbrev pub policy_denied : ℤ
policy_denied = negsuc 32000

-- the closed verdict set, with the keys that each kind carries
pub data Verdict : Type 0 where
  allow : Verdict
  deny quarantine : String → Verdict
  mutate : Value → Verdict
  annotate : Message → Verdict

pub data Outcome : Type 0 where
  forward : Message → Outcome
  block : Message → Bool → Outcome

-- the failure policies
abbrev pub fail_open : String
fail_open = "fail_open"

abbrev pub fail_closed : String
fail_closed = "fail_closed"

unfoldable pub resolve_failure : String → Verdict
resolve_failure policy = if policy == fail_closed then deny "" else allow

unfoldable pub deny_response : Value → String → Message
deny_response id reason = error id policy_denied reason none

abbrev pub with_params : Message → Message → Message
with_params message params = insert message "params" (dict params)

-- `dict(v or {})`; `none` where it raises. A list of pairs, which `dict` takes too, is not modelled.
abbrev pub dict_of : Value → Option Message
dict_of null = some []
dict_of (bool b) = if b then none else some []
dict_of (num n) = if n == pos 0 then some [] else none
dict_of (str s) = if s == "" then some [] else none
dict_of (arr nil) = some []
dict_of (arr (cons v vs)) = none
dict_of (obj fs) = some (entries fs)

abbrev pub annotated : Message → Message → Option Message → Option Message
annotated params provenance none = none
annotated params provenance (some meta) =
    some (insert params "_meta" (dict (update meta provenance)))

-- the `params` after a verdict that is not `allow`
abbrev pub change_params : Verdict → Message → Option Message
change_params (mutate arguments) params = some (insert params "arguments" arguments)
change_params (annotate provenance) params =
    annotated params provenance (dict_of (get_value params "_meta"))
change_params _ params = some params

abbrev pub put_params : Message → Option Message → Option Message
put_params message none = none
put_params message (some params) = some (with_params message params)

abbrev pub changed_in : Verdict → Message → Option Message → Option Message
changed_in v message none = none
changed_in v message (some params) = put_params message (change_params v params)

-- `_apply_one`; `none` where it raises. The terminal verdicts do not reach it.
unfoldable pub apply_one : Verdict → Message → Option Message
apply_one allow message = some message
apply_one v message = changed_in v message (dict_of (get_value message "params"))

-- the reason of a terminal verdict, and whether it quarantines
abbrev pub terminal : Verdict → Option (String × Bool)
terminal (deny reason) = some (reason, false)
terminal (quarantine reason) = some (reason, true)
terminal _ = none

-- `none` where it raises
unfoldable pub outcome_from : List Verdict → Message → Message → Option Outcome
outcome_from [] message request = some (forward message)
outcome_from (v ∷ vs) message request = elim (terminal v) [
  | some (reason, quarantined) ↦
      some (block (deny_response (get_value request "id") reason) quarantined)
  | none ↦ elim (apply_one v message) [ none ↦ none | some next ↦ outcome_from vs next request ]
]

unfoldable pub chain_outcome : List Verdict → Message → Option Outcome
chain_outcome vs request = outcome_from vs request request

-- A declared interest: an absent list is an empty one.
pub record Interest : Type 0 where
  pub methods : List String
  pub directions : List String
  pub tools : List String
  pub content_types : List String

pub record Context : Type 0 where
  pub method : Option String
  pub direction : String
  pub tool : Option String
  pub types : List String

abbrev pub is_among : Option String → List String → Bool
is_among none declared = false
is_among (some v) declared = elem v declared

unfoldable pub matches : List String → Option String → Bool
matches [] v = true
matches declared v = elem "*" declared || is_among v declared

-- A filter: `evaluate` is `none` where it raises.
pub record Filter : Type 0 where
  pub failure_policy : String
  pub cares : Context → Bool
  pub evaluate : String → Message → Option Verdict

abbrev pub verdict_of : Filter → String → Message → Verdict
verdict_of f hook message = elim (f.evaluate hook message) [
  | none ↦ resolve_failure f.failure_policy
  | some v ↦ v
]

abbrev pub preceded : Verdict → Option (List Verdict) → Option (List Verdict)
preceded v none = none
preceded v (some vs) = some (v ∷ vs)

-- the verdicts that `FilterChain.run` collects; `none` where it raises
unfoldable pub verdicts : List Filter → String → Context → Message → Option (List Verdict)
verdicts [] hook context message = some []
verdicts (f ∷ fs) hook context message =
    let v = verdict_of f hook message in
    let skipped = verdicts fs hook context message in
    if not (f.cares context) then skipped else elim (terminal v) [
      | some final ↦ some (v ∷ [])
      | none ↦ elim (apply_one v message) [
        | none ↦ none
        | some next ↦ preceded v (verdicts fs hook context next)
      ]
    ]

abbrev pub reduced : Option (List Verdict) → Message → Option Outcome
reduced none request = none
reduced (some vs) request = chain_outcome vs request

-- `FilterChain.run`, given the interest context of the request; `none` where it raises
unfoldable pub run : List Filter → String → Context → Message → Option Outcome
run fs hook context request = reduced (verdicts fs hook context request) request

unfoldable pub preview_resolve : String → Bool → String × Option String
preview_resolve decision ieof =
    if not (decision == "continue")
    then ("verdict", some decision)
    else if ieof
    then ("scan_full", none)
    else ("need_more", none)

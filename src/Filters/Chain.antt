-- ===== src/Filters/Chain.antt =====
-- The chain's outcome, against a single pass over the filters.
use python_yamp.Prelude.{
  String, ◌≡◌, refl, ap, ◌∙◌, Bool, true, false, not, Option, none, some, List, [], ◌∷◌, ◌++◌,
  if◌then◌else◌, nat_eq, string_eq, option_eq, pair_eq, int_eq,
}
use python_yamp.Prelude.Dict.{insert, update}
use python_yamp.Json.{Value, Message, get_value, dict}
use python_yamp.Filters.{
  Verdict, allow, deny, quarantine, mutate, annotate, Outcome, forward, block, fail_closed,
  resolve_failure, deny_response, dict_of, annotated, put_params, changed_in, apply_one, terminal,
  outcome_from, chain_outcome, Context, Filter, verdict_of, preceded, verdicts, reduced, run,
}

-- What a verdict does to a request: it ends it with a policy error, lets the filters that follow see it
-- changed, or raises where `params` or `_meta` is no dict.
pub data Effect : Type 0 where
  ends : String → Bool → Effect
  next : Message → Effect
  raises : Effect

-- the members of `_meta` that a provenance adds
abbrev pub merged : Message → Message → Option Message → Effect
merged message provenance none = raises
merged message provenance (some params) = elim (dict_of (get_value params "_meta")) [
  | none ↦ raises
  | some meta ↦
      next (insert message "params" (dict (insert params "_meta" (dict (update meta provenance)))))
]

abbrev pub effect : Verdict → Message → Effect
effect allow message = next message
effect (deny reason) message = ends reason false
effect (quarantine reason) message = ends reason true
effect (mutate arguments) message = elim (dict_of (get_value message "params")) [
  | none ↦ raises
  | some params ↦ next (insert message "params" (dict (insert params "arguments" arguments)))
]
effect (annotate provenance) message =
    merged message provenance (dict_of (get_value message "params"))

-- Each filter in turn: skipped, final, or changing the message that the next one sees.
unfoldable pub pass_through : List Filter → String → Context → Message → Message → Option Outcome
pass_through [] hook context request message = some (forward message)
pass_through (f ∷ fs) hook context request message =
    let skipped = pass_through fs hook context request message in
    if f.cares context
    then elim (effect (verdict_of f hook message) message) [
      | ends reason quarantined ↦
          some (block (deny_response (get_value request "id") reason) quarantined)
      | next changed ↦ pass_through fs hook context request changed
      | raises ↦ none
    ]
    else skipped

-- the outcome of the verdicts collected on a message
abbrev outcome_on : Option (List Verdict) → Message → Message → Option Outcome
outcome_on none message request = none
outcome_on (some vs) message request = outcome_from vs message request

outcome_on-preceded :
    (v : Verdict) (o : Option (List Verdict)) (message changed request : Message)
    → terminal v ≡ none
    → apply_one v message ≡ some changed
    → outcome_on (preceded v o) message request ≡ outcome_on o changed request
unfolding outcome_from
outcome_on-preceded v none message changed request e h = refl
outcome_on-preceded v (some vs) message changed request e h =
    ap
      (λ t. elim t as (λ _. Option Outcome) [
        | some (reason, quarantined) ↦
            some (block (deny_response (get_value request "id") reason) quarantined)
        | none ↦ followed (apply_one v message)
      ])
      e
    ∙ ap followed h
  where
    followed : Option Message → Option Outcome
    followed o = elim o [ none ↦ none | some m ↦ outcome_from vs m request ]

module _ (request : Message) (later : Message → Option (List Verdict))
    (passed : Message → Option Outcome) where
  -- what one pass makes of the first filter's verdict
  abbrev passing : Effect → Option Outcome
  passing (ends reason quarantined) =
      some (block (deny_response (get_value request "id") reason) quarantined)
  passing (next m) = passed m
  passing raises = none

  abbrev Agrees : Type 0
  Agrees = (m : Message) → outcome_on (later m) m request ≡ passed m

  abbrev continued : Verdict → Option Message → Option (List Verdict)
  continued v none = none
  continued v (some m) = preceded v (later m)

  collected-mutate :
      (arguments : Value) (message : Message)
      → Agrees
      → outcome_on
          (continued (mutate arguments) (apply_one (mutate arguments) message))
          message
          request
        ≡ passing (effect (mutate arguments) message)
  unfolding apply_one
  collected-mutate arguments message agrees = go (dict_of (get_value message "params")) refl
    where
      go :
          (o : Option Message)
          → dict_of (get_value message "params") ≡ o
          → outcome_on
              (continued (mutate arguments) (changed_in (mutate arguments) message o))
              message
              request
            ≡ passing (elim o as (λ _. Effect) [
              | none ↦ raises
              | some params ↦
                  next (insert message "params" (dict (insert params "arguments" arguments)))
            ])
      go none e = refl
      go (some params) e =
          outcome_on-preceded (mutate arguments) _ message _ request refl
            (ap (changed_in (mutate arguments) message) e)
          ∙ agrees (insert message "params" (dict (insert params "arguments" arguments)))

  collected-annotate :
      (provenance message : Message)
      → Agrees
      → outcome_on
          (continued (annotate provenance) (apply_one (annotate provenance) message))
          message
          request
        ≡ passing (effect (annotate provenance) message)
  unfolding apply_one
  collected-annotate provenance message agrees = go (dict_of (get_value message "params")) refl
    where
      inside :
          (params : Message)
          → dict_of (get_value message "params") ≡ some params
          → (o : Option Message) → dict_of (get_value params "_meta") ≡ o
          → outcome_on
              (continued (annotate provenance) (put_params message (annotated params provenance o)))
              message
              request
            ≡ passing (elim o as (λ _. Effect) [
              | none ↦ raises
              | some meta ↦ next (
                  insert message "params"
                    (dict (insert params "_meta" (dict (update meta provenance)))))
            ])
      inside params e none f = refl
      inside params e (some meta) f =
          outcome_on-preceded (annotate provenance) _ message _ request refl (
            ap (changed_in (annotate provenance) message) e
            ∙ ap (λ x. put_params message (annotated params provenance x)) f)
          ∙ agrees (
              insert message "params"
                (dict (insert params "_meta" (dict (update meta provenance)))))

      go :
          (o : Option Message)
          → dict_of (get_value message "params") ≡ o
          → outcome_on
              (continued (annotate provenance) (changed_in (annotate provenance) message o))
              message
              request
            ≡ passing (merged message provenance o)
      go none e = refl
      go (some params) e = inside params e (dict_of (get_value params "_meta")) refl

  outcome_on-collected :
      (v : Verdict) (message : Message)
      → Agrees
      → outcome_on
          (elim (terminal v) [
            | some final ↦ some (v ∷ [])
            | none ↦ elim (apply_one v message) [ none ↦ none | some m ↦ preceded v (later m) ]
          ])
          message
          request
        ≡ passing (effect v message)
  unfolding outcome_from apply_one
  outcome_on-collected allow message agrees =
      outcome_on-preceded allow (later message) message message request refl refl ∙ agrees message
  outcome_on-collected (deny reason) message agrees = refl
  outcome_on-collected (quarantine reason) message agrees = refl
  outcome_on-collected (mutate arguments) message agrees = collected-mutate arguments message agrees
  outcome_on-collected (annotate provenance) message agrees =
      collected-annotate provenance message agrees

outcome_on-verdicts :
    (fs : List Filter) (hook : String) (context : Context) (request message : Message)
    → outcome_on (verdicts fs hook context message) message request
      ≡ pass_through fs hook context request message
unfolding outcome_from verdicts pass_through
outcome_on-verdicts [] hook context request message = refl
outcome_on-verdicts (f ∷ fs) hook context request message =
    choose (f.cares context) (outcome_on-verdicts fs hook context request)
  where
    v : Verdict
    v = verdict_of f hook message

    choose :
        (cares : Bool)
        → ((m : Message)
            → outcome_on (verdicts fs hook context m) m request
              ≡ pass_through fs hook context request m)
        → outcome_on
            (if not cares
              then verdicts fs hook context message
              else elim (terminal v) as (λ _. Option (List Verdict)) [
                | some final ↦ some (v ∷ [])
                | none ↦ elim (apply_one v message) as (λ _. Option (List Verdict)) [
                  | none ↦ none
                  | some m ↦ preceded v (verdicts fs hook context m)
                ]
              ])
            message
            request
          ≡ (if cares
              then elim (effect v message) as (λ _. Option Outcome) [
                | ends reason quarantined ↦
                    some (block (deny_response (get_value request "id") reason) quarantined)
                | next m ↦ pass_through fs hook context request m
                | raises ↦ none
              ]
              else pass_through fs hook context request message)
    choose true agrees =
        outcome_on-collected request (verdicts fs hook context)
          (pass_through fs hook context request) v message agrees
    choose false agrees = agrees message

pub run-pass_through :
    (fs : List Filter) (hook : String) (context : Context) (request : Message)
    → run fs hook context request ≡ pass_through fs hook context request request
unfolding run chain_outcome
run-pass_through fs hook context request =
    reduced_on (verdicts fs hook context request)
    ∙ outcome_on-verdicts fs hook context request request
  where
    reduced_on : (o : Option (List Verdict)) → reduced o request ≡ outcome_on o request request
    reduced_on none = refl
    reduced_on (some vs) = refl

abbrev pub is_forward : Option Outcome → Bool
is_forward none = false
is_forward (some (forward m)) = true
is_forward (some (block m q)) = false

pass_through-blocked :
    (fs gs : List Filter) (f : Filter) (hook : String) (context : Context)
    (request message : Message)
    → f.cares context ≡ true
    → ((m : Message) → f.evaluate hook m ≡ none)
    → f.failure_policy ≡ fail_closed
    → is_forward (pass_through (fs ++ (f ∷ gs)) hook context request message) ≡ false
unfolding pass_through resolve_failure
pass_through-blocked [] gs f hook context request message c e p = rw (c, e message, p) refl
pass_through-blocked (g ∷ fs) gs f hook context request message c e p =
    choose (g.cares context) (effect (verdict_of g hook message) message)
      (λ m. pass_through-blocked fs gs f hook context request m c e p)
  where
    choose :
        (cares : Bool) (met : Effect)
        → ((m : Message)
            → is_forward (pass_through (fs ++ (f ∷ gs)) hook context request m) ≡ false)
        → is_forward (
            if cares
            then elim met as (λ _. Option Outcome) [
              | ends reason quarantined ↦
                  some (block (deny_response (get_value request "id") reason) quarantined)
              | next m ↦ pass_through (fs ++ (f ∷ gs)) hook context request m
              | raises ↦ none
            ]
            else pass_through (fs ++ (f ∷ gs)) hook context request message)
          ≡ false
    choose true (ends reason quarantined) blocked = refl
    choose true (next m) blocked = blocked m
    choose true raises blocked = refl
    choose false met blocked = blocked message

-- No request passes a filter that is interested, fails closed and raises on every message, wherever
-- it stands in the chain.
pub fail_closed_blocks :
    (fs gs : List Filter) (f : Filter) (hook : String) (context : Context) (request : Message)
    → f.cares context ≡ true
    → ((m : Message) → f.evaluate hook m ≡ none)
    → f.failure_policy ≡ fail_closed
    → is_forward (run (fs ++ (f ∷ gs)) hook context request) ≡ false
fail_closed_blocks fs gs f hook context request c e p =
    ap is_forward (run-pass_through (fs ++ (f ∷ gs)) hook context request)
    ∙ pass_through-blocked fs gs f hook context request request c e p

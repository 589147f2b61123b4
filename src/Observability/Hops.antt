-- ===== src/Observability/Hops.antt =====
-- A message keeps the hops it has taken, in order, and its trace context.
use python_yamp.Prelude.{
  String, ◌≡◌, refl, ap, subst, ◌≢◌, inl, inr, true, Option, none, some, List, [], ◌∷◌, ◌++◌, arith,
  eq_iff, is_some, Bool-cases, some_injective, nat_eq, string_eq, option_eq, pair_eq, int_eq,
}
use python_yamp.Prelude.Dict.{get, has, insert, get-insert, get-insert_self}
use python_yamp.Json.{Value, Message, items-of_items, list}
use python_yamp.Observability.{
  proxy_hops_key, traceparent, proxy_hop, hops_of, append_hop, ensure_trace_context,
}

-- A hop is added behind those that the message has taken, and nothing else of its `_meta` changes.
pub append_hop_lem :
    (meta out : Message) (hops : List Value) (mode k : String)
    → hops_of (get meta proxy_hops_key) ≡ some hops
    → append_hop meta mode ≡ some out
    → (hops_of (get out proxy_hops_key) ≡ some (hops ++ (proxy_hop mode ∷ [])))
      × (k ≢ proxy_hops_key → get out k ≡ get meta k)
unfolding append_hop
append_hop_lem meta out hops mode k h e =
    subst
      (λ m.
        (hops_of (get m proxy_hops_key) ≡ some (hops ++ (proxy_hop mode ∷ [])))
        × (k ≢ proxy_hops_key → get m k ≡ get meta k))
      (written (hops_of (get meta proxy_hops_key)) h e)
      (
        rw get-insert_self (ap some (items-of_items (hops ++ (proxy_hop mode ∷ [])))),
        λ other. rw get-insert (ground (arith, eq_iff proxy_hops_key k)),
      )
  where
    written :
        (o : Option (List Value))
        → o ≡ some hops
        → elim o as (λ _. Option Message) [
          | none ↦ none
          | some hs ↦ some (insert meta proxy_hops_key (list (hs ++ (proxy_hop mode ∷ []))))
        ]
          ≡ some out
        → insert meta proxy_hops_key (list (hops ++ (proxy_hop mode ∷ []))) ≡ out
    written none h e = absurd (ground arith)
    written (some hs) h e =
        subst (λ x. insert meta proxy_hops_key (list (x ++ (proxy_hop mode ∷ []))) ≡ out)
          (some_injective hs hops h) (some_injective _ out e)

-- A trace context that is there is kept, and one is there afterwards in any case.
pub ensure_trace_context_lem :
    (meta : Message) (new_ids : String × String) (k : String)
    → (has (ensure_trace_context meta new_ids) traceparent ≡ true)
      × (has meta k ≡ true → get (ensure_trace_context meta new_ids) k ≡ get meta k)
unfolding ensure_trace_context
ensure_trace_context_lem meta new_ids k = elim (Bool-cases (has meta traceparent)) [
  | inl there ↦ rw there (there, λ h. refl)
  | inr missing ↦ rw missing (
    ap is_some (get-insert_self meta traceparent _),
    λ h. rw get-insert (ground (arith, eq_iff traceparent k)),
  )
]

-- ===== src/Cache/Isolation.antt =====
-- Where an answer of the cache comes from: a private result goes to the principal that stored it.
use python_yamp.Prelude.{
  eq_iff, String, ◌≡◌, refl, sym, ap, ◌∙◌, ◌⊎◌, inl, inr, Option, none, some, List, [], ◌∷◌, arith,
  eq_iff, Bool-cases, All, nat_eq, string_eq, option_eq, pair_eq, ℤ, ◌≤ℤ◌, int_eq,
}
use python_yamp.Prelude.Dict.{get}
use python_yamp.Json.{Message}
use python_yamp.Prelude.{eq_iff, option_beq_iff, pair_beq_iff, pair_beq}
use python_yamp.Cache.{Entry, new_cache, lookup, scope_of, cache_scope_key, private_scope}
use python_yamp.Cache.Provenance.{
  Event, got, stored, invalidated, time, run, written, effect, latest, visible, lookup-run,
}

-- A call in the history stored this result under the key, for the principal `q` if it is private.
pub data Source (b m : String) (q : Option String) (r : Message) : List Event → Type 0 where
  here :
      (t : ℤ) (p : Option String) (es : List Event)
      → (scope_of (get r cache_scope_key) ≡ private_scope → p ≡ q)
      → Source b m q r (stored t b m p r ∷ es)
  there : (e : Event) {es : List Event} → Source b m q r es → Source b m q r (e ∷ es)

written_result :
    (now d t : ℤ) (p q : Option String) (r' r : Message) (e : Entry)
    → written d t p r' ≡ some e
    → visible now q (some e) ≡ some r
    → r' ≡ r
written_result now d t p q r' r e w v = ground arith

visible_private :
    (now : ℤ) (q : Option String) (r : Message) (e : Entry)
    → visible now q (some e) ≡ some r
    → e.scope ≡ private_scope
    → e.principal ≡ q
visible_private now q r e v s =
    ground (arith, option_beq_iff e.principal q, eq_iff e.scope private_scope)

written_scope :
    (d t : ℤ) (p : Option String) (r : Message) (e : Entry)
    → written d t p r ≡ some e
    → e.scope ≡ scope_of (get r cache_scope_key)
written_scope d t p r e w = ground arith

written_entry :
    (d t : ℤ) (p : Option String) (r : Message) (e : Entry)
    → written d t p r ≡ some e
    → scope_of (get r cache_scope_key) ≡ private_scope
    → e.principal ≡ p
written_entry d t p r e w s =
    ground (arith, eq_iff (scope_of (get r cache_scope_key)) private_scope)

written_principal :
    (now d t : ℤ) (p q : Option String) (r' r : Message) (e : Entry)
    → written d t p r' ≡ some e
    → visible now q (some e) ≡ some r
    → scope_of (get r' cache_scope_key) ≡ private_scope
    → p ≡ q
written_principal now d t p q r' r e w v s =
    sym (written_entry d t p r' e w s)
    ∙ visible_private now q r e v (written_scope d t p r' e w ∙ s)

written-Source :
    (now d t : ℤ) (b m : String) (p q : Option String) (r' r : Message) (e : Entry)
    (es : List Event)
    → written d t p r' ≡ some e
    → visible now q (some e) ≡ some r
    → Source b m q r (stored t b m p r' ∷ es)
written-Source now d t b m p q r' r e es w v = rw (written_result now d t p q r' r e w v) (
    here t p es
      λ s. written_principal now d t p q r' r e w v (rw (written_result now d t p q r' r e w v) s))

effect-Source :
    (now d : ℤ) (b m : String) (q : Option String) (r : Message) (e : Entry) (x : Event)
    (es : List Event) (o : Option Entry)
    → effect d (b, m) x o ≡ some e
    → visible now q (some e) ≡ some r
    → (o ≡ some e) ⊎ Source b m q r (x ∷ es)
effect-Source now d b m q r e (got t b' m' p) es o h v = inl h
effect-Source now d b m q r e (stored t b' m' p r') es o h v =
    elim (Bool-cases (pair_beq (b', m') (b, m))) [
      | inl same ↦
          let e' : written d t p r' ≡ some e = rw same at h in
          let k : ◌≡◌ {A = String × String} (b', m') (b, m) =
            (pair_beq_iff (b', m') (b, m)).0 same in
          inr
            (rw (ap (λ x. x.0) k, ap (λ x. x.1) k) (written-Source now d t b m p q r' r e es e' v))
      | inr other ↦ inl (rw other at h)
    ]
effect-Source now d b m q r e (invalidated t b') es o h v = ground arith

latest-Source :
    (now d : ℤ) (b m : String) (q : Option String) (r : Message) (e : Entry) (es : List Event)
    (o : Option Entry)
    → latest d (b, m) es o ≡ some e
    → visible now q (some e) ≡ some r
    → (o ≡ some e) ⊎ Source b m q r es
unfolding latest
latest-Source now d b m q r e [] o h v = inl h
latest-Source now d b m q r e (x ∷ es) o h v =
    elim (latest-Source now d b m q r e es (effect d (b, m) x o) h v) [
      | inl made ↦ effect-Source now d b m q r e x es o made v
      | inr s ↦ inr (there x s)
    ]

-- An answer to `q`, after any calls at times up to `now`, was stored under the same backend and
-- method by one of them, and by `q` itself if the result is private.
pub lookup_isolated :
    (now default_ttl : ℤ) (es : List Event) (b m : String) (q : Option String) (r : Message)
    → All (λ e. time e ≤ℤ now) es
    → (lookup now b m q (run es (new_cache default_ttl))).1 ≡ some r
    → Source b m q r es
lookup_isolated now default_ttl es b m q r h answered =
    from (latest default_ttl (b, m) es none) refl
      (sym (lookup-run now default_ttl es b m q h) ∙ answered)
  where
    from :
        (o : Option Entry)
        → latest default_ttl (b, m) es none ≡ o
        → visible now q o ≡ some r
        → Source b m q r es
    from none made v = cc
    from (some e) made v = elim (latest-Source now default_ttl b m q r e es none made v) [
      | inl never ↦ cc
      | inr s ↦ s
    ]

-- ===== src/Health/Departures.antt =====
-- What is announced, once, and what the cache forgets.
use python_yamp.Prelude.{
  String, ◌≡◌, refl, sym, ap, ◌∙◌, subst, inl, inr, true, false, not, ◌&&◌, none, some, List, [],
  ◌∷◌, arith, eq_iff, if◌then◌else◌, Bool-cases, some_injective, all, ◌==◌, beq_refl, elem, char_eq,
  nat_eq, string_eq, option_eq, pair_eq, int_eq,
}
use python_yamp.Prelude.Dict.{get}
use python_yamp.Json.{Message}
use python_yamp.Jsonrpc.{notification}
use python_yamp.Cache.{ListCache, invalidate_backend}
use python_yamp.Health.{
  Announced, same_ids, departed, invalidate_all, invalidated, emit_if_surface_changed,
}
use python_yamp.Cache.Provenance.{get-drop_backend}

elem-departed :
    (k : String) (ids current : List String)
    → elem k (departed ids current) ≡ (elem k ids && not (elem k current))
unfolding departed
elem-departed k [] current = refl
elem-departed k (id ∷ ids) current = elim (Bool-cases (id == k)) [
  | inl same ↦ rw ((eq_iff id k).0 same) (elim (Bool-cases (elem k current)) [
    | inl known ↦ rw known (rw (elem-departed k ids current) (rw known (ground arith)))
    | inr gone ↦ rw gone (rw (beq_refl k) refl)
  ])
  | inr other ↦ elim (Bool-cases (elem id current)) [
    | inl known ↦
        rw known (ground (arith, elem-departed k ids current, eq_iff id k, eq_iff k id, other))
    | inr gone ↦
        rw gone (ground (arith, elem-departed k ids current, eq_iff id k, eq_iff k id, other))
  ]
]

get-invalidate_all :
    (ids : List String) (c : ListCache) (k m : String)
    → get (invalidate_all ids c).entries_ (k, m)
      ≡ (if elem k ids then none else get c.entries_ (k, m))
unfolding invalidate_all invalidate_backend
get-invalidate_all [] c k m = refl
get-invalidate_all (id ∷ ids) c k m =
    get-invalidate_all ids (invalidate_backend id c) k m
    ∙ rw (get-drop_backend id c.entries_ (k, m)) (elim (Bool-cases (elem k ids)) [
      | inl listed ↦ rw listed (ground (arith, eq_iff k id, eq_iff id k))
      | inr unlisted ↦ rw unlisted (ground (arith, eq_iff k id, eq_iff id k))
    ])

all-elem-false :
    (k : String) (xs ys : List String)
    → elem k xs ≡ true
    → elem k ys ≡ false
    → all (λ x. elem x ys) xs ≡ false
all-elem-false k [] ys here away = absurd (ground arith)
all-elem-false k (x ∷ xs) ys here away = elim (Bool-cases (x == k)) [
  | inl same ↦ rw ((eq_iff x k).0 same) (rw away refl)
  | inr other ↦ rw (all-elem-false k xs ys (rw other at here) away) (ground arith)
]

all-elem_self :
    (xs ys : List String)
    → ((k : String) → elem k xs ≡ true → elem k ys ≡ true)
    → all (λ x. elem x ys) xs ≡ true
all-elem_self [] ys h = refl
all-elem_self (x ∷ xs) ys h =
    rw (h x (rw (beq_refl x) refl)) (all-elem_self xs ys (λ k e. h k (rw e (ground arith))))

same_ids_self : (ids : List String) → same_ids ids ids ≡ true
unfolding same_ids
same_ids_self ids = let same = all-elem_self ids ids (λ k e. e) in rw same refl

same_ids-false :
    (current surface : List String) (id : String)
    → elem id surface ≡ true
    → elem id current ≡ false
    → same_ids current surface ≡ false
unfolding same_ids
same_ids-false current surface id here gone =
    rw (all-elem-false id surface current here gone) (ground arith)

abbrev renewed : List String → Announced → Announced
renewed current s = record {
  surface = current;
  cache = invalidated (departed s.surface current) s.cache;
}

emit_same :
    (current : List String) (s : Announced)
    → same_ids current s.surface ≡ true
    → emit_if_surface_changed current s ≡ (s, [])
unfolding emit_if_surface_changed
emit_same current s h = simp h

emit_other :
    (current : List String) (s : Announced)
    → same_ids current s.surface ≡ false
    → emit_if_surface_changed current s
      ≡ (renewed current s, notification "notifications/tools/list_changed" none ∷ [])
unfolding emit_if_surface_changed
emit_other current s h = simp h

-- When a backend of the announced set is not available any more, nothing of it is left in the cache.
pub departed_forgotten :
    (current : List String) (s : Announced) (c c' : ListCache) (id method : String)
    → elem id s.surface ≡ true
    → elem id current ≡ false
    → s.cache ≡ some c
    → (emit_if_surface_changed current s).0.cache ≡ some c'
    → get c'.entries_ (id, method) ≡ none
departed_forgotten current s c c' id method here gone held after =
    let ids = departed s.surface current in
    let emitted =
      ap (λ x. x.0.cache) (emit_other current s (same_ids-false current s.surface id here gone)) in
    let forgot =
      some_injective c' (invalidate_all ids c) (sym after ∙ emitted ∙ ap (invalidated ids) held) in
    rw forgot (
      get-invalidate_all ids c id method ∙ rw (elem-departed id s.surface current, here, gone) refl)

-- A change is announced once: asked again with the same backends available, nothing is sent and nothing
-- changes.
pub announced_once :
    (current : List String) (s : Announced)
    → emit_if_surface_changed current (emit_if_surface_changed current s).0
      ≡ ((emit_if_surface_changed current s).0, [])
announced_once current s = elim (Bool-cases (same_ids current s.surface)) [
  | inl same ↦
      settled (emit_if_surface_changed current s) s (ap (λ x. x.0) (emit_same current s same))
        (emit_same current s same)
  | inr other ↦
      settled (emit_if_surface_changed current s) (renewed current s)
        (ap (λ x. x.0) (emit_other current s other))
        (emit_same current (renewed current s) (same_ids_self current))
]
  where
    settled :
        (r : Announced × List Message) (s' : Announced)
        → r.0 ≡ s'
        → emit_if_surface_changed current s' ≡ (s', [])
        → emit_if_surface_changed current r.0 ≡ (r.0, [])
    settled r s' e h = subst (λ x. emit_if_surface_changed current x ≡ (x, [])) (sym e) h

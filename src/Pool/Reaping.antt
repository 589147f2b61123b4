-- ===== src/Pool/Reaping.antt =====
-- Which calls are reaped at a time.
use python_yamp.Prelude.{
  String, ◌≡◌, refl, sym, ap, ◌∙◌, inl, inr, Bool, false, ◌&&◌, ◌||◌, Option, none, some, List, [],
  ◌∷◌, arith, if◌then◌else◌, Bool-cases, Eq, ◌==◌, elem, nat_eq, string_eq, option_eq, pair_eq, ℤ,
  pos, ◌+ℤ◌, ◌≤ℤ◌, ltb_ℤ, leb_ℤ, int_eq,
}
use python_yamp.Prelude.Dict.{Dict, get, has, insert, get-insert}
use python_yamp.Prelude.Dict.{Unique, insert-Unique}
use python_yamp.Pool.{
  InFlight, deadline, expired, insert_by, sort_by, contains, touch, overdue, expired_ids,
}

-- in flight with a deadline that has passed
abbrev pub due : ℤ → Option ℤ → Bool
due now none = false
due now (some d) = expired d now

expired-deadline :
    (now t idle : ℤ)
    → pos 0 ≤ℤ t
    → expired (deadline t idle) now ≡ (ltb_ℤ (pos 0) idle && leb_ℤ (t +ℤ idle) now)
unfolding expired deadline
expired-deadline now t idle h = ground arith

module _ {ℓ} {CallId : Type ℓ} ⦃e : Eq CallId⦄ where
  elem-insert_by :
      (repr : CallId → String) (a b : CallId) (l : List CallId)
      → elem a (insert_by repr b l) ≡ (b == a || elem a l)
  unfolding insert_by
  elem-insert_by repr a b [] = refl
  elem-insert_by repr a b (c ∷ l) = ground (arith, elem-insert_by repr a b l)

  elem-sort_by :
      (repr : CallId → String) (a : CallId) (l : List CallId) → elem a (sort_by repr l) ≡ elem a l
  unfolding sort_by
  elem-sort_by repr a [] = refl
  elem-sort_by repr a (c ∷ l) =
      elem-insert_by repr a c (sort_by repr l) ∙ ap (λ x. c == a || x) (elem-sort_by repr a l)

  elem-overdue :
      (now : ℤ) (a : CallId) (ds : Dict CallId ℤ)
      → Unique ds
      → elem a (overdue now ds) ≡ due now (get ds a)
  unfolding get
  elem-overdue now a [] u = refl
  elem-overdue now a ((id, d) ∷ ds) (fresh, u) =
      ground (arith, e.beq_iff id a, elem-overdue now a ds u)

  -- Exactly the calls in flight whose deadline has passed are reaped.
  elem-expired_ids :
      (repr : CallId → String) (now : ℤ) (a : CallId) (s : InFlight CallId)
      → Unique s.deadlines
      → elem a (expired_ids repr now s) ≡ due now (get s.deadlines a)
  unfolding expired_ids
  elem-expired_ids repr now a s u =
      elem-sort_by repr a (overdue now s.deadlines) ∙ elem-overdue now a s.deadlines u

  -- In a registry that holds each call once: after progress of a call at a time `t` that is not
  -- negative, with an idle budget, that call is reaped exactly when the budget has gone by since, if
  -- it is positive and the call is in flight; no other call is affected.
  pub expired_ids-touch :
      (repr : CallId → String) (now t idle : ℤ) (a b : CallId) (s : InFlight CallId)
      → Unique s.deadlines
      → pos 0 ≤ℤ t
      → elem b (expired_ids repr now (touch a (deadline t idle) s).0) ≡ (
          if a == b && contains a s
          then ltb_ℤ (pos 0) idle && leb_ℤ (t +ℤ idle) now
          else elem b (expired_ids repr now s))
  unfolding touch contains
  expired_ids-touch repr now t idle a b s u h = elim (Bool-cases (has s.deadlines a)) [
    | inl inside ↦ rw inside (
        elem-expired_ids repr now b (record { deadlines = insert s.deadlines a (deadline t idle) })
          (insert-Unique s.deadlines a (deadline t idle) u)
        ∙ rw get-insert (elim (Bool-cases (a == b)) [
          | inl same ↦ rw same (expired-deadline now t idle h)
          | inr other ↦ rw other (sym (elem-expired_ids repr now b s u))
        ]))
    | inr outside ↦ rw outside (ground arith)
  ]

-- ===== src/Collision/Priority.antt =====
-- `priority`: what one round of the loop keeps true.
use python_yamp.Prelude.{
  ℕ, suc, ◌+◌, ◌≤◌, String, ◌≡◌, refl, sym, ap, ◌∙◌, subst, ◌⊎◌, inl, inr, true, false, Option,
  none, some, List, [], ◌∷◌, ◌++◌, arith, eq_iff, eq_refl, ltb, if◌then◌else◌, is_some, Bool-cases,
  some_injective, length, length-append, All, All-append, ◌==◌, elem, nat_eq, string_eq, option_eq,
  pair_eq, int_eq,
}
use python_yamp.Prelude.Dict.{Dict, get, insert, get-insert, get-insert_self}
use python_yamp.Collision.{Tool, Kept, begin, replace, refuse, place, offer}

abbrev pub rank_in : (Tool → ℕ) → Option Tool → Option ℕ
rank_in rank none = none
rank_in rank (some t) = some (rank t)

-- The facts hold for any names and ranks of tools.
module _ (name_of : Tool → String) (rank_at : Tool → ℕ) where
  -- `best` holds the ranks of the kept copies, which stand under their original names, in `order`;
  -- `n` tools are kept or discarded.
  pub record IsSound (n : ℕ) (s : Kept) : Type 0 where
    pub ranked : (o : String) → get s.best o ≡ rank_in rank_at (get s.kept o)
    pub named : (o : String) (t : Tool) → get s.kept o ≡ some t → name_of t ≡ o
    pub listed : (o : String) (t : Tool) → get s.kept o ≡ some t → elem o s.order ≡ true
    pub present : All (λ o. is_some (get s.kept o) ≡ true) s.order
    pub balance : length s.order + length s.discarded ≡ n

  -- A copy of the same original name, of a rank at least as high, is kept.
  abbrev pub Covers : Tool → Kept → Type 0
  Covers t s = (k : Tool) × (get s.kept (name_of t) ≡ some k) × (rank_at k ≤ rank_at t)

  abbrev pub offered : Tool → Kept → Kept
  offered t s = offer (name_of t) (rank_at t) t s

  write_ranked :
      (t : Tool) (best : Dict String ℕ) (kept : Dict String Tool) (o : String)
      → get best o ≡ rank_in rank_at (get kept o)
      → get (insert best (name_of t) (rank_at t)) o
        ≡ rank_in rank_at (get (insert kept (name_of t) t) o)
  write_ranked t best kept o h = rw (get-insert, get-insert) (ground (arith, h))

  write_named :
      (t u : Tool) (kept : Dict String Tool) (o : String)
      → ((u : Tool) → get kept o ≡ some u → name_of u ≡ o)
      → get (insert kept (name_of t) t) o ≡ some u
      → name_of u ≡ o
  write_named t u kept o h e =
      go (Bool-cases (name_of t == o)) (sym (get-insert kept (name_of t) o t) ∙ e)
    where
      go :
          ((name_of t == o) ≡ true) ⊎ ((name_of t == o) ≡ false)
          → (if name_of t == o then some t else get kept o) ≡ some u
          → name_of u ≡ o
      go (inl same) e =
          ap name_of (sym (some_injective t u (ground arith))) ∙ (eq_iff (name_of t) o).0 same
      go (inr other) e = h u (ground arith)

  write_present :
      (t : Tool) (kept : Dict String Tool) (os : List String)
      → All (λ o. is_some (get kept o) ≡ true) os
      → All (λ o. is_some (get (insert kept (name_of t) t) o) ≡ true) os
  write_present t kept [] a = tt
  write_present t kept (o ∷ os) (h, a) = (rw get-insert (ground arith), write_present t kept os a)

  write_listed :
      (t u : Tool) (kept : Dict String Tool) (os : List String) (o : String)
      → elem (name_of t) os ≡ true
      → ((u : Tool) → get kept o ≡ some u → elem o os ≡ true)
      → get (insert kept (name_of t) t) o ≡ some u
      → elem o os ≡ true
  write_listed t u kept os o m h e =
      go (Bool-cases (name_of t == o)) (sym (get-insert kept (name_of t) o t) ∙ e)
    where
      go :
          ((name_of t == o) ≡ true) ⊎ ((name_of t == o) ≡ false)
          → (if name_of t == o then some t else get kept o) ≡ some u
          → elem o os ≡ true
      go (inl same) e = subst (λ x. elem x os ≡ true) ((eq_iff (name_of t) o).0 same) m
      go (inr other) e = h u (ground arith)

  elem-append_left :
      (o p : String) (os : List String) → elem o os ≡ true → elem o (os ++ (p ∷ [])) ≡ true
  elem-append_left o p [] h = absurd (ground arith)
  elem-append_left o p (q ∷ os) h = ground (arith, elem-append_left o p os)

  elem-append_last : (o : String) (os : List String) → elem o (os ++ (o ∷ [])) ≡ true
  elem-append_last o [] = ground (arith, eq_refl o)
  elem-append_last o (q ∷ os) = ground (arith, elem-append_last o os)

  pub kept_there :
      {held : ℕ} (o : Option Tool)
      → some held ≡ rank_in rank_at o
      → (old : Tool) × (o ≡ some old) × (held ≡ rank_at old)
  kept_there none h = absurd (ground arith)
  kept_there (some old) h = (old, refl, some_injective _ _ h)

  begin_lem :
      (n : ℕ) (t : Tool) (s : Kept)
      → IsSound n s
      → IsSound (suc n) (begin (name_of t) (rank_at t) t s)
  begin_lem n t s k = record {
    ranked = λ o. write_ranked t s.best s.kept o (k.ranked o);
    named = λ o u. write_named t u s.kept o (k.named o);
    listed = λ o u.
        write_listed t u s.kept (s.order ++ (name_of t ∷ [])) o
          (elem-append_last (name_of t) s.order)
          (λ u e. elem-append_left o (name_of t) s.order (k.listed o u e));
    present =
        All-append _ s.order (name_of t ∷ []) (write_present t s.kept s.order k.present)
          (ap is_some (get-insert_self s.kept (name_of t) t), tt);
    balance = omega (arith, k.balance, length-append s.order (name_of t ∷ []));
  }

  replace_lem :
      (n held : ℕ) (t : Tool) (s : Kept)
      → get s.best (name_of t) ≡ some held
      → IsSound n s
      → IsSound (suc n) (replace (name_of t) (rank_at t) t s)
  replace_lem n held t s h k =
      let (old, e, r) = kept_there (get s.kept (name_of t)) (sym h ∙ k.ranked (name_of t)) in
      record {
        ranked = λ o. write_ranked t s.best s.kept o (k.ranked o);
        named = λ o u. write_named t u s.kept o (k.named o);
        listed = λ o u. write_listed t u s.kept s.order o (k.listed (name_of t) old e) (k.listed o);
        present = write_present t s.kept s.order k.present;
        balance = rw e (omega (arith, k.balance, length-append s.discarded (old ∷ [])));
      }

  refuse_lem : (n : ℕ) (t : Tool) (s : Kept) → IsSound n s → IsSound (suc n) (refuse t s)
  refuse_lem n t s k = record {
    ranked = k.ranked;
    named = k.named;
    listed = k.listed;
    present = k.present;
    balance = omega (arith, k.balance, length-append s.discarded (t ∷ []));
  }

  pub offer_lem : (n : ℕ) (t : Tool) (s : Kept) → IsSound n s → IsSound (suc n) (offered t s)
  offer_lem n t s k = go (get s.best (name_of t)) refl
    where
      go :
          (o : Option ℕ)
          → get s.best (name_of t) ≡ o
          → IsSound (suc n) (place o (name_of t) (rank_at t) t s)
      go none e = begin_lem n t s k
      go (some held) e =
          elim (ltb (rank_at t) held)
            as (λ b.
              IsSound (suc n) (if b then replace (name_of t) (rank_at t) t s else refuse t s)) [
                | true ↦ replace_lem n held t s e k
                | false ↦ refuse_lem n t s k
              ]

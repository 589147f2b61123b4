-- ===== src/Collision/Ranking.antt =====
-- `priority`: one copy of each original name is kept, of the highest rank, and nothing is lost.
use python_yamp.Prelude.{
  map, ℕ, zero, suc, ◌+◌, ◌≤◌, String, ◌≡◌, refl, sym, ap, ◌∙◌, subst, inl, inr, Bool, true, false,
  Option, none, some, List, [], ◌∷◌, ◌++◌, arith, eq_iff, ltb, if◌then◌else◌, Bool-cases, length,
  All, ◌==◌, elem, nat_eq, string_eq, option_eq, pair_eq, int_eq,
}
use python_yamp.Prelude.Dict.{Dict, get, insert, get-insert, get-insert_self}
use python_yamp.Collision.Tallies.{tally, Distinct, Counts, offers-Counts, map-kept_tools}
use python_yamp.Collision.{
  original_of, Tool, ranks, Kept, replace, refuse, place, original, this_rank, offers, nothing_kept,
  kept_tools, apply_priority,
}
use python_yamp.Collision.Priority.{rank_in, IsSound, Covers, offered, kept_there, offer_lem}

module _ (name_of : Tool → String) (rank_at : Tool → ℕ) where
  abbrev CoversIn : Tool → Kept → Type 0
  CoversIn = Covers name_of rank_at

  place-Covers_self :
      (n : ℕ) (t : Tool) (s : Kept)
      → IsSound name_of rank_at n s
      → CoversIn t (offered name_of rank_at t s)
  place-Covers_self n t s k = go (get s.best (name_of t)) refl
    where
      held_on :
          (held : ℕ)
          → get s.best (name_of t) ≡ some held
          → (b : Bool) → ltb (rank_at t) held ≡ b
          → CoversIn t (if b then replace (name_of t) (rank_at t) t s else refuse t s)
      held_on held e true l = (t, get-insert_self s.kept (name_of t) t, omega arith)
      held_on held e false l =
          let (old, f, r) =
            kept_there name_of rank_at (get s.kept (name_of t)) (sym e ∙ k.ranked (name_of t)) in
          (old, f, ground (arith, r))

      go :
          (o : Option ℕ)
          → get s.best (name_of t) ≡ o
          → CoversIn t (place o (name_of t) (rank_at t) t s)
      go none e = (t, get-insert_self s.kept (name_of t) t, omega arith)
      go (some held) e = held_on held e (ltb (rank_at t) held) refl

  -- A write for another name leaves a copy in its place; one for the same name has a higher rank.
  write-Covers :
      (t u : Tool) (kept : Dict String Tool) (k : Tool)
      → get kept (name_of u) ≡ some k
      → rank_at k ≤ rank_at u
      → (name_of t ≡ name_of u → rank_at t ≤ rank_at k)
      → (j : Tool) × (get (insert kept (name_of t) t) (name_of u) ≡ some j)
        × (rank_at j ≤ rank_at u)
  write-Covers t u kept k e l m = elim (Bool-cases (name_of t == name_of u)) [
    | inl same ↦
        let n = (eq_iff (name_of t) (name_of u)).0 same in
        (t, rw (get-insert, same) refl, omega (arith, l, m n))
    | inr other ↦ (k, rw (get-insert, other) e, l)
  ]

  place-Covers :
      (n : ℕ) (t u : Tool) (s : Kept)
      → IsSound name_of rank_at n s
      → CoversIn u s
      → CoversIn u (offered name_of rank_at t s)
  place-Covers n t u s sound (k, e, l) = go (get s.best (name_of t)) refl
    where
      rank_of_kept :
          {o : Option ℕ} → get s.best (name_of t) ≡ o → name_of t ≡ name_of u → o ≡ some (rank_at k)
      rank_of_kept h same =
          sym h ∙ sound.ranked (name_of t) ∙ ap (rank_in rank_at) (ap (get s.kept) same ∙ e)

      held_on :
          (held : ℕ)
          → get s.best (name_of t) ≡ some held
          → (b : Bool) → ltb (rank_at t) held ≡ b
          → CoversIn u (if b then replace (name_of t) (rank_at t) t s else refuse t s)
      held_on held h true lt =
          write-Covers t u s.kept k e l (λ same. ground (arith, rank_of_kept h same))
      held_on held h false lt = (k, e, l)

      go :
          (o : Option ℕ)
          → get s.best (name_of t) ≡ o
          → CoversIn u (place o (name_of t) (rank_at t) t s)
      go none h =
          write-Covers t u s.kept k e l (λ same. absurd (ground (arith, rank_of_kept h same)))
      go (some held) h = held_on held h (ltb (rank_at t) held) refl

-- The kept tools hold the tool.
abbrev pub KeptIn : Tool → List Tool → Type 0
KeptIn k ts = (before : List Tool) × (after : List Tool) × (ts ≡ before ++ (k ∷ after))

kept_tools-KeptIn :
    (os : List String) (d : Dict String Tool) (o : String) (k : Tool)
    → elem o os ≡ true
    → get d o ≡ some k
    → KeptIn k (kept_tools os d)
unfolding kept_tools
kept_tools-KeptIn [] d o k m h = absurd (ground arith)
kept_tools-KeptIn (p ∷ os) d o k m h = elim (Bool-cases (p == o)) [
  | inl same ↦ first ((eq_iff p o).0 same)
  | inr other ↦ later (get d p) (kept_tools-KeptIn os d o k (ground arith) h)
]
  where
    Kept_then : Option Tool → Type 0
    Kept_then found =
        KeptIn k
          (elim found as (λ _. List Tool) [ none ↦ kept_tools os d | some t ↦ t ∷ kept_tools os d ])

    first : p ≡ o → Kept_then (get d p)
    first same = subst Kept_then (sym (ap (get d) same ∙ h)) ([], kept_tools os d, refl)

    later : (found : Option Tool) → KeptIn k (kept_tools os d) → Kept_then found
    later none kept = kept
    later (some t) (before, after, e) = (t ∷ before, after, ap (λ ts. t ∷ ts) e)

module _ (split : String → Option (String × String)) (rank : Dict String ℕ) (lowest : ℕ) where
  abbrev name_of : Tool → String
  name_of = original split rank lowest

  abbrev rank_at : Tool → ℕ
  rank_at = this_rank split rank lowest

  offers-Covers :
      (ts : List Tool) (n : ℕ) (s : Kept) (u : Tool)
      → IsSound name_of rank_at n s
      → Covers name_of rank_at u s
      → Covers name_of rank_at u (offers split rank lowest ts s)
  unfolding offers
  offers-Covers [] n s u k c = c
  offers-Covers (t ∷ ts) n s u k c =
      offers-Covers ts (suc n) _ u (offer_lem name_of rank_at n t s k)
        (place-Covers name_of rank_at n t u s k c)

  offers_lem :
      (ts : List Tool) (n : ℕ) (s : Kept)
      → IsSound name_of rank_at n s
      → IsSound name_of rank_at (n + length ts) (offers split rank lowest ts s)
        × All (λ u. Covers name_of rank_at u (offers split rank lowest ts s)) ts
  unfolding offers
  offers_lem [] n s k = (subst (λ m. IsSound name_of rank_at m s) (omega arith) k, tt)
  offers_lem (t ∷ ts) n s k =
      let next = offer_lem name_of rank_at n t s k in
      let (sound, covered) = offers_lem ts (suc n) _ next in
      (
        subst (λ m. IsSound name_of rank_at m (offers split rank lowest (t ∷ ts) s)) (omega arith)
            sound,
        (offers-Covers ts (suc n) _ t next (place-Covers_self name_of rank_at n t s k), covered),
      )

  nothing_lem : IsSound name_of rank_at 0 nothing_kept
  unfolding get
  nothing_lem = record {
    ranked = λ o. refl;
    named = λ o t e. absurd (ground arith);
    listed = λ o t e. absurd (ground arith);
    present = tt;
    balance = refl;
  }

All-map : (P Q : Tool → Type 0) (ts : List Tool) → ((t : Tool) → P t → Q t) → All P ts → All Q ts
All-map P Q [] f a = tt
All-map P Q (t ∷ ts) f (p, a) = (f t p, All-map P Q ts f a)

-- What `priority` promises for one of the tools: a copy of its original name is kept, of a rank at
-- least as high.
abbrev pub Represented :
    (String → Option (String × String)) → List String → List Tool → Tool → Type 0
Represented split priority kept u =
    let rank = ranks priority 0 [] in
    let lowest = length priority in
    (k : Tool) × KeptIn k kept
    × (original split rank lowest k ≡ original split rank lowest u)
    × (this_rank split rank lowest k ≤ this_rank split rank lowest u)

nothing-Counts : (p : Tool → Bool) → Counts p 0 nothing_kept
unfolding kept_tools
nothing-Counts p = record { distinct = _; total = omega arith }

counted :
    (split : String → Option (String × String)) (priority : List String) (tools : List Tool)
    (p : Tool → Bool)
    → Counts p
        (0 + tally p tools)
        (offers split (ranks priority 0 []) (length priority) tools nothing_kept)
counted split priority tools p =
    let rank = ranks priority 0 [] in
    let lowest = length priority in
    offers-Counts p split rank lowest tools zero 0 nothing_kept (nothing_lem split rank lowest)
      (nothing-Counts p)

-- With the `priority` strategy every tool is either kept or reported as discarded, as often as it is
-- offered: of the tools that pass any test, so many are kept and reported together as are offered. No
-- original name is kept twice, and for each of the tools a copy of its original name is kept whose
-- backend ranks at least as high.
pub apply_priority_lem :
    (tools : List Tool) (split : String → Option (String × String)) (priority : List String)
    → ((p : Tool → Bool)
        → tally p (apply_priority tools split priority).0
            + tally p (apply_priority tools split priority).1
          ≡ tally p tools)
      × Distinct
          (map (λ t. original_of (split t.name) t.name) (apply_priority tools split priority).0)
      × All (Represented split priority (apply_priority tools split priority).0) tools
unfolding apply_priority
apply_priority_lem tools split priority =
    let rank = ranks priority 0 [] in
    let lowest = length priority in
    let (sound, covered) =
      offers_lem split rank lowest tools zero nothing_kept (nothing_lem split rank lowest) in
    let s = offers split rank lowest tools nothing_kept in
    (
      λ p. omega (arith, (counted split priority tools p).total),
      subst Distinct
          (sym
            (map-kept_tools (original split rank lowest) s.order s.kept sound.present sound.named))
          (counted split priority tools (λ t. true)).distinct,
      All-map (λ u. Covers (original split rank lowest) (this_rank split rank lowest) u s) _ tools
          (λ u (k, e, l).
            let n = sound.named (original split rank lowest u) k e in
            (k, kept_tools-KeptIn s.order s.kept _ k (sound.listed _ k e) e, n, l))
          covered,
    )

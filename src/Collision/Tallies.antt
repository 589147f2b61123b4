-- ===== src/Collision/Tallies.antt =====
-- `priority`: what is kept and what is reported are together the tools that were offered.
use python_yamp.Prelude.{
  ℕ, suc, ◌+◌, String, ◌≡◌, refl, sym, ap, ◌∙◌, subst, inl, inr, Bool, true, false, ◌⊎◌, Option,
  none, some, List, [], ◌∷◌, ◌++◌, map, arith, eq_iff, ltb, if◌then◌else◌, is_some, Bool-cases, All,
  ◌==◌, elem, nat_eq, string_eq, option_eq, pair_eq, int_eq,
}
use python_yamp.Prelude.Dict.{Dict, get, insert, get-insert, get-insert_self}
use python_yamp.Collision.{
  Tool, Kept, begin, replace, refuse, place, original, this_rank, offers, kept_tools, dropped,
}
use python_yamp.Collision.Priority.{rank_in, IsSound, offered, kept_there, offer_lem}

-- how many of the tools pass a test
abbrev pub tally : (Tool → Bool) → List Tool → ℕ
tally p [] = 0
tally p (t ∷ ts) = (if p t then 1 else 0) + tally p ts

-- no name stands twice
abbrev pub Distinct : List String → Type 0
Distinct [] = Unit
Distinct (o ∷ os) = (elem o os ≡ false) × Distinct os

tally-append : (p : Tool → Bool) (ts us : List Tool) → tally p (ts ++ us) ≡ tally p ts + tally p us
tally-append p [] us = omega arith
tally-append p (t ∷ ts) us = omega (arith, tally-append p ts us)

elem-append_other :
    (o q : String) (os : List String)
    → elem o os ≡ false
    → (q == o) ≡ false
    → elem o (os ++ (q ∷ [])) ≡ false
elem-append_other o q [] h d = ground (arith, d)
elem-append_other o q (r ∷ os) h d = ground (arith, h, elem-append_other o q os)

not_first : (o q : String) (os : List String) → elem o (q ∷ os) ≡ false → (q == o) ≡ false
not_first o q os h = ground (arith, h)

different : (o q : String) → (q == o) ≡ false → (o == q) ≡ false
different o q h = ground (arith, eq_iff q o, eq_iff o q, h)

Distinct-append :
    (os : List String) (o : String) → Distinct os → elem o os ≡ false → Distinct (os ++ (o ∷ []))
Distinct-append [] o d h = (refl, _)
Distinct-append (q ∷ os) o (f, d) h = (
  elem-append_other q o os f (different o q (not_first o q os h)),
  Distinct-append os o d (ground (arith, h)),
)

-- the kept tools after the first name
abbrev then_kept : Option Tool → List Tool → List Tool
then_kept none ts = ts
then_kept (some t) ts = t ∷ ts

kept_tools-cons :
    (o : String) (os : List String) (d : Dict String Tool)
    → kept_tools (o ∷ os) d ≡ then_kept (get d o) (kept_tools os d)
unfolding kept_tools
kept_tools-cons o os d = go (get d o)
  where
    go :
        (found : Option Tool)
        → elim found as (λ _. List Tool) [ none ↦ kept_tools os d | some t ↦ t ∷ kept_tools os d ]
          ≡ then_kept found (kept_tools os d)
    go none = refl
    go (some t) = refl

kept_tools-append :
    (os : List String) (o : String) (d : Dict String Tool)
    → kept_tools (os ++ (o ∷ [])) d ≡ kept_tools os d ++ then_kept (get d o) []
unfolding kept_tools
kept_tools-append [] o d = kept_tools-cons o [] d
kept_tools-append (q ∷ os) o d =
    kept_tools-cons q (os ++ (o ∷ [])) d
    ∙ ap (then_kept (get d q)) (kept_tools-append os o d)
    ∙ moved (get d q)
    ∙ ap (λ ts. ts ++ then_kept (get d o) []) (sym (kept_tools-cons q os d))
  where
    moved :
        (found : Option Tool)
        → then_kept found (kept_tools os d ++ then_kept (get d o) [])
          ≡ then_kept found (kept_tools os d) ++ then_kept (get d o) []
    moved none = refl
    moved (some t) = refl

get-insert_other :
    (d : Dict String Tool) (o q : String) (t : Tool)
    → (o == q) ≡ false
    → get (insert d o t) q ≡ get d q
get-insert_other d o q t h = get-insert d o q t ∙ ap (λ b. if b then some t else get d q) h

kept_tools-other :
    (os : List String) (o : String) (t : Tool) (d : Dict String Tool)
    → elem o os ≡ false
    → kept_tools os (insert d o t) ≡ kept_tools os d
unfolding kept_tools
kept_tools-other [] o t d h = refl
kept_tools-other (q ∷ os) o t d h =
    kept_tools-cons q os (insert d o t)
    ∙ ap (λ g. then_kept g (kept_tools os (insert d o t))) (get-insert_other d o q t flip_first)
    ∙ ap (then_kept (get d q)) (kept_tools-other os o t d (ground (arith, h)))
    ∙ sym (kept_tools-cons q os d)
  where
    flip_first : (o == q) ≡ false
    flip_first = different o q (not_first o q os h)

module _ (p : Tool → Bool) where
  abbrev one : Tool → ℕ
  one t = if p t then 1 else 0

  tally-then_kept :
      (t : Tool) (ts : List Tool) → tally p (then_kept (some t) ts) ≡ one t + tally p ts
  tally-then_kept t ts = refl

  -- a copy in the place of another one
  tally-replaced :
      (os : List String) (o : String) (t old : Tool) (d : Dict String Tool)
      → Distinct os
      → elem o os ≡ true
      → get d o ≡ some old
      → tally p (kept_tools os (insert d o t)) + one old ≡ tally p (kept_tools os d) + one t
  tally-replaced [] o t old d f there h = absurd (ground arith)
  tally-replaced (q ∷ os) o t old d (f, ds) there h =
      go (Bool-cases (q == o)) (tally-replaced os o t old d ds)
    where
      here :
          q ≡ o
          → tally p (kept_tools (q ∷ os) (insert d o t)) + one old
            ≡ tally p (kept_tools (q ∷ os) d) + one t
      here same =
          let fresh : elem o os ≡ false = subst (λ x. elem x os ≡ false) same f in
          let now_kept : get (insert d o t) q ≡ some t =
            ap (get (insert d o t)) same ∙ get-insert_self d o t in
          let new_sum = ap (tally p) (
            kept_tools-cons q os (insert d o t)
            ∙ ap (λ g. then_kept g (kept_tools os (insert d o t))) now_kept
            ∙ ap (then_kept (some t)) (kept_tools-other os o t d fresh)) in
          let old_sum = ap (tally p) (
            kept_tools-cons q os d
            ∙ ap (λ g. then_kept g (kept_tools os d)) (ap (get d) same ∙ h)) in
          omega (arith, new_sum, old_sum)

      later :
          (q == o) ≡ false
          → tally p (kept_tools os (insert d o t)) + one old ≡ tally p (kept_tools os d) + one t
          → tally p (kept_tools (q ∷ os) (insert d o t)) + one old
            ≡ tally p (kept_tools (q ∷ os) d) + one t
      later other e =
          let same_kept = get-insert_other d o q t (different o q other) in
          with_found (get d q)
            (ap (tally p) (
              kept_tools-cons q os (insert d o t)
              ∙ ap (λ g. then_kept g (kept_tools os (insert d o t))) same_kept))
            (ap (tally p) (kept_tools-cons q os d)) e
        where
          with_found :
              (found : Option Tool)
              → tally p (kept_tools (q ∷ os) (insert d o t))
                ≡ tally p (then_kept found (kept_tools os (insert d o t)))
              → tally p (kept_tools (q ∷ os) d) ≡ tally p (then_kept found (kept_tools os d))
              → tally p (kept_tools os (insert d o t)) + one old ≡ tally p (kept_tools os d) + one t
              → tally p (kept_tools (q ∷ os) (insert d o t)) + one old
                ≡ tally p (kept_tools (q ∷ os) d) + one t
          with_found none a b e = omega (arith, a, b, e)
          with_found (some x) a b e = omega (arith, a, b, e)

      go :
          ((q == o) ≡ true) ⊎ ((q == o) ≡ false)
          → (elem o os ≡ true
              → get d o ≡ some old
              → tally p (kept_tools os (insert d o t)) + one old
                ≡ tally p (kept_tools os d) + one t)
          → tally p (kept_tools (q ∷ os) (insert d o t)) + one old
            ≡ tally p (kept_tools (q ∷ os) d) + one t
      go (inl same) rec = here ((eq_iff q o).0 same)
      go (inr other) rec = later other (rec (ground (arith, there, other)) h)

  -- `n` of the tools that were offered pass the test, and so many are kept or reported; no name is kept
  -- twice.
  pub record Counts (n : ℕ) (s : Kept) : Type 0 where
    pub distinct : Distinct s.order
    pub total : tally p (kept_tools s.order s.kept) + tally p s.discarded ≡ n

  module _ (name_of : Tool → String) (rank_at : Tool → ℕ) where
    -- a name that is not kept is not in the order
    absent :
        (o : String) (os : List String) (d : Dict String Tool)
        → All (λ q. is_some (get d q) ≡ true) os
        → get d o ≡ none
        → elem o os ≡ false
    absent o [] d a h = refl
    absent o (q ∷ os) d (f, a) h = go (Bool-cases (q == o)) (absent o os d a h)
      where
        go : ((q == o) ≡ true) ⊎ ((q == o) ≡ false) → elem o os ≡ false → elem o (q ∷ os) ≡ false
        go (inl same) e =
            absurd (ground (arith, sym f ∙ ap is_some (ap (get d) ((eq_iff q o).0 same) ∙ h)))
        go (inr other) e = ground (arith, other, e)

    unranked : (o : Option Tool) → none ≡ rank_in rank_at o → o ≡ none
    unranked none e = refl
    unranked (some t) e = absurd (ground arith)

    begin-Counts :
        (m n : ℕ) (t : Tool) (s : Kept)
        → IsSound name_of rank_at m s
        → get s.best (name_of t) ≡ none
        → Counts n s
        → Counts (n + one t) (begin (name_of t) (rank_at t) t s)
    begin-Counts m n t s k e c =
        let missing = unranked (get s.kept (name_of t)) (sym e ∙ k.ranked (name_of t)) in
        let fresh = absent (name_of t) s.order s.kept k.present missing in
        let added =
          ap (tally p) (
            kept_tools-append s.order (name_of t) (insert s.kept (name_of t) t)
            ∙ ap (λ g. kept_tools s.order (insert s.kept (name_of t) t) ++ then_kept g [])
                (get-insert_self s.kept (name_of t) t)
            ∙ ap (λ ts. ts ++ (t ∷ [])) (kept_tools-other s.order (name_of t) t s.kept fresh))
          ∙ tally-append p (kept_tools s.order s.kept) (t ∷ []) in
        record {
          distinct = Distinct-append s.order (name_of t) c.distinct fresh;
          total = omega (arith, added, c.total);
        }

    replace-Counts :
        (m n held : ℕ) (t : Tool) (s : Kept)
        → IsSound name_of rank_at m s
        → get s.best (name_of t) ≡ some held
        → Counts n s
        → Counts (n + one t) (replace (name_of t) (rank_at t) t s)
    replace-Counts m n held t s k e c =
        let (old, f, r) =
          kept_there name_of rank_at (get s.kept (name_of t)) (sym e ∙ k.ranked (name_of t)) in
        let swapped =
          tally-replaced s.order (name_of t) t old s.kept c.distinct (k.listed (name_of t) old f)
            f in
        let reported =
          ap (λ o. tally p (s.discarded ++ dropped o)) f ∙ tally-append p s.discarded (old ∷ []) in
        record { distinct = c.distinct; total = omega (arith, swapped, reported, c.total) }

    refuse-Counts : (n : ℕ) (t : Tool) (s : Kept) → Counts n s → Counts (n + one t) (refuse t s)
    refuse-Counts n t s c = record {
      distinct = c.distinct;
      total = omega (arith, tally-append p s.discarded (t ∷ []), c.total);
    }

    offer-Counts :
        (m n : ℕ) (t : Tool) (s : Kept)
        → IsSound name_of rank_at m s
        → Counts n s
        → Counts (n + one t) (offered name_of rank_at t s)
    offer-Counts m n t s k c = go (get s.best (name_of t)) refl
      where
        chosen :
            (held : ℕ)
            → get s.best (name_of t) ≡ some held
            → (b : Bool)
            → Counts (n + one t) (if b then replace (name_of t) (rank_at t) t s else refuse t s)
        chosen held e true = replace-Counts m n held t s k e c
        chosen held e false = refuse-Counts n t s c

        go :
            (o : Option ℕ)
            → get s.best (name_of t) ≡ o
            → Counts (n + one t) (place o (name_of t) (rank_at t) t s)
        go none e = begin-Counts m n t s k e c
        go (some held) e = chosen held e (ltb (rank_at t) held)

  pub offers-Counts :
      (split : String → Option (String × String)) (rank : Dict String ℕ) (lowest : ℕ)
      (ts : List Tool) (m n : ℕ) (s : Kept)
      → IsSound (original split rank lowest) (this_rank split rank lowest) m s
      → Counts n s
      → Counts (n + tally p ts) (offers split rank lowest ts s)
  unfolding offers
  offers-Counts split rank lowest [] m n s k c = subst (λ x. Counts x s) (omega arith) c
  offers-Counts split rank lowest (t ∷ ts) m n s k c =
      subst (λ x. Counts x (offers split rank lowest (t ∷ ts) s)) (omega arith)
        (offers-Counts split rank lowest ts (suc m) (n + one t) _
          (offer_lem (original split rank lowest) (this_rank split rank lowest) m t s k)
          (offer-Counts (original split rank lowest) (this_rank split rank lowest) m n t s k c))

-- the kept copies stand under their own names, in order
pub map-kept_tools :
    (name_of : Tool → String) (os : List String) (d : Dict String Tool)
    → All (λ o. is_some (get d o) ≡ true) os
    → ((o : String) (t : Tool) → get d o ≡ some t → name_of t ≡ o)
    → map name_of (kept_tools os d) ≡ os
unfolding kept_tools
map-kept_tools name_of [] d a named = refl
map-kept_tools name_of (o ∷ os) d (f, a) named =
    ap (map name_of) (kept_tools-cons o os d)
    ∙ go (get d o) f (named o) (map-kept_tools name_of os d a named)
  where
    go :
        (found : Option Tool)
        → is_some found ≡ true
        → ((t : Tool) → found ≡ some t → name_of t ≡ o)
        → map name_of (kept_tools os d) ≡ os
        → map name_of (then_kept found (kept_tools os d)) ≡ o ∷ os
    go none h n e = absurd (ground arith)
    go (some t) h n e = ap (λ x. x ∷ map name_of (kept_tools os d)) (n t refl) ∙ ap (◌∷◌ o) e

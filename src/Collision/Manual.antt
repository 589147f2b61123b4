-- ===== src/Collision/Manual.antt =====
-- `manual`: the names have a mapping exactly when no two of them share an exposed name.
use python_yamp.Prelude.{
  String, ◌≡◌, refl, sym, ap, ◌∙◌, subst, ◌↔◌, ◌⊎◌, inl, inr, Bool, true, false, ◌||◌, Option, none,
  some, List, [], ◌∷◌, arith, eq_iff, eq_refl, if◌then◌else◌, is_some, Bool-cases, some_injective,
  ◌==◌, elem, nat_eq, string_eq, option_eq, pair_eq, int_eq,
}
use python_yamp.Prelude.Dict.{Dict, get, insert, get-insert, get-insert_self}
use python_yamp.Collision.{target, claimed, assign, resolve_manual}

-- Names with one target are one name.
abbrev pub Injective : Dict String String → (String → Bool) → Type 0
Injective overrides p =
    (m n : String) → p m ≡ true → p n ≡ true → target overrides m ≡ target overrides n → m ≡ n

abbrev Claims : Dict String String → (String → Bool) → Dict String String → Type 0
Claims overrides p seen = (n : String) → p n ≡ true → get seen (target overrides n) ≡ some n

abbrev IsSound : Dict String String → (String → Bool) → Dict String String → Type 0
IsSound overrides p seen =
    (t n : String) → get seen t ≡ some n → (p n ≡ true) × (target overrides n ≡ t)

abbrev with_name : String → (String → Bool) → String → Bool
with_name name p n = name == n || p n

unclaimed :
    (seen : Dict String String) (t name m : String)
    → claimed (get seen t) name ≡ false
    → get seen t ≡ some m
    → m ≡ name
unclaimed seen t name m c h = ground (arith, eq_iff m name)

with_name_other :
    (name n : String) (p : String → Bool)
    → (name == n) ≡ false
    → with_name name p n ≡ true
    → p n ≡ true
with_name_other name n p d h = ground arith

with_name_self : (name : String) (p : String → Bool) → with_name name p name ≡ true
with_name_self name p = ground (arith, eq_refl name)

with_name_more : (name n : String) (p : String → Bool) → p n ≡ true → with_name name p n ≡ true
with_name_more name n p h = ground arith

Claims-insert :
    (overrides : Dict String String) (p : String → Bool) (seen : Dict String String) (name : String)
    → claimed (get seen (target overrides name)) name ≡ false
    → Claims overrides p seen
    → Claims overrides (with_name name p) (insert seen (target overrides name) name)
Claims-insert overrides p seen name c h n e = elim (Bool-cases (name == n)) [
  | inl same ↦
      subst (λ x. get (insert seen (target overrides name) name) (target overrides x) ≡ some x)
        ((eq_iff name n).0 same) (get-insert_self seen (target overrides name) name)
  | inr other ↦ rw get-insert (elim (Bool-cases (target overrides name == target overrides n)) [
    | inl clash ↦ rw clash (
        ap some (
          sym (
            unclaimed seen (target overrides name) name n c (
              subst (λ t. get seen t ≡ some n)
                (sym ((eq_iff (target overrides name) (target overrides n)).0 clash))
                (h n (with_name_other name n p other e))))))
    | inr apart ↦ rw apart (h n (with_name_other name n p other e))
  ])
]

not_claimed :
    (overrides : Dict String String) (name : String) (names : List String)
    (exposed seen e : Dict String String)
    → assign overrides (name ∷ names) exposed seen ≡ some e
    → (claimed (get seen (target overrides name)) name ≡ false)
      × (assign overrides names
            (insert exposed name (target overrides name))
            (insert seen (target overrides name) name)
          ≡ some e)
unfolding assign
not_claimed overrides name names exposed seen e h = ground arith

reorder :
    (overrides : Dict String String) (p q : String → Bool)
    → ((n : String) → q n ≡ true → p n ≡ true)
    → Injective overrides p
    → Injective overrides q
reorder overrides p q h inj m n pm pn = inj m n (h m pm) (h n pn)

all_claimed :
    (overrides : Dict String String) (names : List String) (p : String → Bool)
    (exposed seen e : Dict String String)
    → assign overrides names exposed seen ≡ some e
    → Claims overrides p seen
    → Injective overrides (λ n. elem n names || p n)
all_claimed overrides [] p exposed seen e h c =
    λ m n pm pn same. some_injective m n (sym (c m pm) ∙ ap (get seen) same ∙ c n pn)
all_claimed overrides (name ∷ names) p exposed seen e h c =
    let (free, later) = not_claimed overrides name names exposed seen e h in
    reorder overrides (λ n. elem n names || with_name name p n) (λ n. elem n (name ∷ names) || p n)
      (λ n. λ q. ground arith)
      (all_claimed overrides names (with_name name p) _ _ e later
        (Claims-insert overrides p seen name free c))

IsSound-insert :
    (overrides : Dict String String) (p : String → Bool) (seen : Dict String String) (name : String)
    → IsSound overrides p seen
    → IsSound overrides (with_name name p) (insert seen (target overrides name) name)
IsSound-insert overrides p seen name s t n h =
    go (Bool-cases (target overrides name == t))
      (sym (get-insert seen (target overrides name) t name) ∙ h)
  where
    go :
        ((target overrides name == t) ≡ true) ⊎ ((target overrides name == t) ≡ false)
        → (if target overrides name == t then some name else get seen t) ≡ some n
        → (with_name name p n ≡ true) × (target overrides n ≡ t)
    go (inl same) e =
        let name_n = some_injective name n (ground arith) in
        (
          subst (λ x. with_name name p x ≡ true) name_n (with_name_self name p),
          sym (ap (target overrides) name_n) ∙ (eq_iff (target overrides name) t).0 same,
        )
    go (inr other) e = let (k, r) = s t n (ground arith) in (with_name_more name n p k, r)

free_of_clash :
    (overrides : Dict String String) (p : String → Bool) (seen : Dict String String) (name : String)
    → IsSound overrides p seen
    → ((n : String) → p n ≡ true → target overrides n ≡ target overrides name → n ≡ name)
    → claimed (get seen (target overrides name)) name ≡ false
free_of_clash overrides p seen name s inj = go (get seen (target overrides name)) refl
  where
    go : (o : Option String) → get seen (target overrides name) ≡ o → claimed o name ≡ false
    go none e = refl
    go (some m) e =
        let (k, r) = s (target overrides name) m e in ground (arith, eq_iff m name, inj m k r)

assign_total :
    (overrides : Dict String String) (names : List String) (p : String → Bool)
    (exposed seen : Dict String String)
    → IsSound overrides p seen
    → Injective overrides (λ n. elem n names || p n)
    → is_some (assign overrides names exposed seen) ≡ true
unfolding assign
assign_total overrides [] p exposed seen s inj = refl
assign_total overrides (name ∷ names) p exposed seen s inj =
    rw
      (free_of_clash overrides p seen name s
        (λ n k same. inj n name (ground arith) (ground (arith, eq_refl name)) same))
      (assign_total overrides names (with_name name p) _ _ (IsSound-insert overrides p seen name s)
        (reorder overrides (λ n. elem n (name ∷ names) || p n)
          (λ n. elem n names || with_name name p n) (λ n q. ground arith) inj))

nothing_left :
    (overrides exposed seen e : Dict String String)
    → assign overrides [] exposed seen ≡ some e
    → exposed ≡ e
unfolding assign
nothing_left overrides exposed seen e h = ground arith

get-assign :
    (overrides : Dict String String) (names : List String) (exposed seen e : Dict String String)
    (n : String)
    → assign overrides names exposed seen ≡ some e
    → get e n ≡ (if elem n names then some (target overrides n) else get exposed n)
get-assign overrides [] exposed seen e n h =
    ap (λ d. get d n) (sym (nothing_left overrides exposed seen e h))
get-assign overrides (name ∷ names) exposed seen e n h =
    let (free, later) = not_claimed overrides name names exposed seen e h in
    get-assign overrides names _ _ e n later ∙ rw get-insert (go (Bool-cases (name == n)))
  where
    go :
        ((name == n) ≡ true) ⊎ ((name == n) ≡ false)
        → (if elem n names
            then some (target overrides n)
            else if name == n
            then some (target overrides name)
            else get exposed n)
          ≡ (if elem n (name ∷ names) then some (target overrides n) else get exposed n)
    go (inl same) = rw ((eq_iff name n).0 same) (ground (arith, eq_refl n))
    go (inr other) = ground arith

-- The `manual` strategy has a mapping for the names of a list, and raises nothing, exactly when no two of
-- the names are exposed under one name.
pub resolve_manual_iff :
    (names : List String) (overrides : Dict String String)
    → (is_some (resolve_manual names overrides) ≡ true) ↔ Injective overrides (λ n. elem n names)
unfolding resolve_manual
resolve_manual_iff names overrides = (
  (λ h.
      let (e, found) = is_some_value (assign overrides names [] []) h in
      reorder overrides (λ n. elem n names || false) (λ n. elem n names) (λ n q. ground arith)
        (all_claimed overrides names (λ n. false) [] [] e found (λ n q. ground arith))),
  (λ inj.
      assign_total overrides names (λ n. false) [] [] (λ t n h. unfold get in ground arith)
        (reorder overrides (λ n. elem n names) (λ n. elem n names || false) (λ n q. ground arith)
          inj)),
)
  where
    is_some_value :
        (o : Option (Dict String String))
        → is_some o ≡ true
        → (e : Dict String String) × (o ≡ some e)
    is_some_value none h = ground arith
    is_some_value (some e) h = (e, refl)

-- The mapping that `manual` gives sends each of the names to its override, or to itself, and nothing
-- else.
pub get-resolve_manual :
    (names : List String) (overrides exposed : Dict String String) (n : String)
    → resolve_manual names overrides ≡ some exposed
    → get exposed n ≡ (if elem n names then some (target overrides n) else none)
unfolding resolve_manual
get-resolve_manual names overrides exposed n h =
    get-assign overrides names [] [] exposed n h ∙ unfold get in refl

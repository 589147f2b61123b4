-- ===== src/Prelude/Dict.antt =====
-- Python's `dict` as an association list in insertion order. A write to a key that is present keeps
-- its place; a removal drops the key.
use mathlib.Core.Path.{◌≡◌, refl}
use mathlib.Core.Bool.{Bool, false}
use mathlib.Core.Logic.{inl, inr}
use mathlib.Core.Option.{Option, none, some}
use mathlib.Core.List.{List, [], ◌∷◌, map}
use native.Mathlib.Omega.{arith}
use python_yamp.Prelude.Tests.{if◌then◌else◌, is_some, Bool-cases}
use python_yamp.Prelude.Classes.{Eq, ◌==◌, beq_refl}

abbrev pub Dict {ℓ κ} : Type ℓ → Type κ → Type (ℓ ⊔ κ)
Dict K V = List (K × V)

module _ {ℓ κ} {K : Type ℓ} {V : Type κ} ⦃e : Eq K⦄ where
  -- d.get(k)
  unfoldable pub get : Dict K V → K → Option V
  get [] k = none
  get ((j, v) ∷ d) k = if j == k then some v else get d k

  -- k in d
  abbrev pub has : Dict K V → K → Bool
  has d k = is_some (get d k)

  -- d[k] = v
  unfoldable pub insert : Dict K V → K → V → Dict K V
  insert [] k v = (k, v) ∷ []
  insert ((j, w) ∷ d) k v = if j == k then (j, v) ∷ d else (j, w) ∷ insert d k v

  -- del d[k], d.pop(k, None)
  unfoldable pub remove : Dict K V → K → Dict K V
  remove [] k = []
  remove ((j, w) ∷ d) k = let rest = remove d k in if j == k then rest else (j, w) ∷ rest

  -- d.update(u)
  unfoldable pub update : Dict K V → Dict K V → Dict K V
  update d [] = d
  update d ((k, v) ∷ u) = update (insert d k v) u

  -- d.get(k, default)
  abbrev pub get_or : Dict K V → K → V → V
  get_or d k v = elim (get d k) [ none ↦ v | some w ↦ w ]

  pub get-insert :
      (d : Dict K V) (k j : K) (v : V) → get (insert d k v) j ≡ (if k == j then some v else get d j)
  unfolding get insert
  get-insert [] k j v = refl
  get-insert ((i, w) ∷ d) k j v =
      ground (arith, e.beq_iff k j, e.beq_iff i k, e.beq_iff i j, get-insert d k j v)

  pub get-remove :
      (d : Dict K V) (k j : K) → get (remove d k) j ≡ (if k == j then none else get d j)
  unfolding get remove
  get-remove [] k j = ground arith
  get-remove ((i, w) ∷ d) k j =
      ground (arith, e.beq_iff k j, e.beq_iff i k, e.beq_iff i j, get-remove d k j)

  pub get-insert_self : (d : Dict K V) (k : K) (v : V) → get (insert d k v) k ≡ some v
  get-insert_self d k v = simp (get-insert, beq_refl)

abbrev pub keys {ℓ κ} : {K : Type ℓ} {V : Type κ} → Dict K V → List K
keys = map (λ e. e.0)

abbrev pub values {ℓ κ} : {K : Type ℓ} {V : Type κ} → Dict K V → List V
values = map (λ e. e.1)

pub ruleset dict_laws = (get-insert, get-remove)

-- Every key stands once, as in a `dict`.
module _ {ℓ κ} {K : Type ℓ} {V : Type κ} ⦃e : Eq K⦄ where
  abbrev pub Unique : Dict K V → Type κ
  Unique [] = Unit
  Unique ((k, v) ∷ d) = (get d k ≡ none) × Unique d

  pub insert-Unique : (d : Dict K V) (k : K) (v : V) → Unique d → Unique (insert d k v)
  unfolding insert
  insert-Unique [] k v u = (unfold get in refl, tt)
  insert-Unique ((j, w) ∷ d) k v (fresh, u) = elim (Bool-cases (j == k)) [
    | inl same ↦ rw same (fresh, u)
    | inr other ↦ rw other (rw get-insert (rw (swap_false j k other) fresh), insert-Unique d k v u)
  ]
    where
      swap_false : (a b : K) → (a == b) ≡ false → (b == a) ≡ false
      swap_false a b h = ground (arith, e.beq_iff a b, e.beq_iff b a)

  pub remove-Unique : (d : Dict K V) (k : K) → Unique d → Unique (remove d k)
  unfolding remove
  remove-Unique [] k u = tt
  remove-Unique ((j, w) ∷ d) k (fresh, u) = elim (Bool-cases (j == k)) [
    | inl same ↦ rw same (remove-Unique d k u)
    | inr other ↦ rw other (rw get-remove (ground arith), remove-Unique d k u)
  ]

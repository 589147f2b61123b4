-- ===== src/Errors/Registry.antt =====
-- The registry's ids tell the codes apart.
use python_yamp.Prelude.{
  String, ◌≡◌, refl, sym, ◌∙◌, ◌≢◌, inl, inr, true, false, not, [], ◌∷◌, arith, eq_iff, Bool-cases,
  any, ◌==◌, int_beq_iff, nat_eq, string_eq, option_eq, pair_eq, ℤ, int_eq,
}
use python_yamp.Prelude.Dict.{Dict, get}
use python_yamp.Errors.{Description, registry, told, error_id}

-- no later entry has the id
abbrev pub Apart : Dict ℤ Description → Type 0
Apart [] = Unit
Apart ((c, d) ∷ r) = (any (λ e. e.1.id == d.id) r ≡ false) × (not (d.id == "") ≡ true) × Apart r

registry-Apart : Apart registry
registry-Apart = ground arith

-- The id of an entry found in the rest is not that of the head.
found-Apart :
    (r : Dict ℤ Description) (id : String) (c : ℤ)
    → any (λ e. e.1.id == id) r ≡ false
    → told (λ d. d.id) (get r c) ≡ id
    → id ≡ ""
unfolding get
found-Apart [] id c h e = sym e
found-Apart ((j, d) ∷ r) id c h e = elim (Bool-cases (j == c)) [
  | inl same ↦ absurd (ground (arith, eq_iff d.id id))
  | inr other ↦ found-Apart r id c (ground arith) (ground arith)
]

not_empty : {s : String} → not (s == "") ≡ true → s ≢ ""
not_empty {s} h e = ground (arith, eq_iff s "")

id-Apart :
    (r : Dict ℤ Description) (c j : ℤ)
    → Apart r
    → told (λ d. d.id) (get r c) ≢ ""
    → told (λ d. d.id) (get r c) ≡ told (λ d. d.id) (get r j)
    → c ≡ j
unfolding get
id-Apart [] c j a n e = absurd (n refl)
id-Apart ((k, d) ∷ r) c j (fresh, full, a) n e = elim (Bool-cases (k == c)) [
  | inl at_c ↦ elim (Bool-cases (k == j)) [
    | inl at_j ↦ sym ((int_beq_iff k c).0 at_c) ∙ (int_beq_iff k j).0 at_j
    | inr off_j ↦ absurd (not_empty full (found-Apart r d.id j fresh (ground arith)))
  ]
  | inr off_c ↦ elim (Bool-cases (k == j)) [
    | inl at_j ↦ absurd (not_empty full (found-Apart r d.id c fresh (ground arith)))
    | inr off_j ↦ id-Apart r c j a (ground arith) (ground arith)
  ]
]

-- Two codes with one error id are one code, where the registry has the id: the id tells a client
-- which error it got.
pub error_id-injective : (c j : ℤ) → error_id c ≢ "" → error_id c ≡ error_id j → c ≡ j
unfolding error_id
error_id-injective c j n e = id-Apart registry c j registry-Apart n e

-- ===== src/Capability/Composition.antt =====
-- What is advertised of the composed surface.
use python_yamp.Prelude.{
  ℕ, zero, suc, ◌≤◌, String, ◌≡◌, refl, ap, ◌⊎◌, inl, inr, Bool, true, false, not, ◌&&◌, List, [],
  ◌∷◌, ◌++◌, arith, eq_iff, ltb, if◌then◌else◌, Bool-cases, length, any, take, length-append, ◌==◌,
  elem, char_eq, nat_eq, string_eq, option_eq, pair_eq, int_eq,
}
use python_yamp.Capability.{
  NamedTool, search_tool, search_tool_definition, union, common, firsts, intersection, disclose,
}

length-take : (n : ℕ) (ts : List NamedTool) → n ≤ length ts → length (take n ts) ≡ n
length-take zero ts h = refl
length-take (suc n) [] h = absurd (omega arith)
length-take (suc n) (t ∷ ts) h = omega (arith, length-take n ts (omega arith))

-- The advertised surface has at most one tool more than the threshold, is the whole one where that is
-- within it, and has the search tool exactly where it is not.
pub disclose_lem :
    (tools : List NamedTool) (threshold : ℕ)
    → (length (disclose tools threshold).0 ≤ suc threshold)
      × ((disclose tools threshold).1 ≡ ltb threshold (length tools))
      × (length tools ≤ threshold → (disclose tools threshold).0 ≡ tools)
unfolding disclose
disclose_lem tools threshold = go (ltb threshold (length tools)) refl
  where
    more : List NamedTool
    more = record { name = search_tool; tool = search_tool_definition } ∷ []

    pick : Bool → List NamedTool × Bool
    pick b = if b then (take threshold tools ++ more, true) else (tools, false)

    go :
        (b : Bool)
        → ltb threshold (length tools) ≡ b
        → (length (pick b).0 ≤ suc threshold)
          × ((pick b).1 ≡ b)
          × (length tools ≤ threshold → (pick b).0 ≡ tools)
    go true e = (
      omega (
        arith,
        length-append (take threshold tools) more,
        length-take threshold tools (ground arith),
      ),
      refl,
      λ h. absurd (ground arith),
    )
    go false e = (ground arith, refl, λ h. refl)

abbrev pub offers_name : String → List NamedTool → Bool
offers_name name = any (λ t. t.name == name)

offers_name-firsts :
    (p : String → Bool) (name : String) (seen : List String) (ts : List NamedTool)
    → offers_name name (firsts p seen ts)
      ≡ (p name && (not (elem name seen) && offers_name name ts))
unfolding firsts
offers_name-firsts p name seen [] = ground arith
offers_name-firsts p name seen (t ∷ ts) =
    go (Bool-cases (t.name == name)) (offers_name-firsts p name (t.name ∷ seen) ts)
      (offers_name-firsts p name seen ts)
  where
    picked : List NamedTool
    picked =
        if p t.name && not (elem t.name seen)
        then t ∷ firsts p (t.name ∷ seen) ts
        else firsts p seen ts

    go :
        ((t.name == name) ≡ true) ⊎ ((t.name == name) ≡ false)
        → offers_name name (firsts p (t.name ∷ seen) ts)
          ≡ (p name && (not (elem name (t.name ∷ seen)) && offers_name name ts))
        → offers_name name (firsts p seen ts)
          ≡ (p name && (not (elem name seen) && offers_name name ts))
        → offers_name name picked ≡ (p name && (not (elem name seen) && offers_name name (t ∷ ts)))
    go (inl same) a b =
        let e = (eq_iff t.name name).0 same in
        let f : p t.name ≡ p name = ap p e in
        let g : elem t.name seen ≡ elem name seen = ap (λ n. elem n seen) e in
        rw (f, g) (ground arith)
    go (inr other) a b = ground arith

-- A name is in the intersection exactly where every backend offers it, and one does.
pub offers_name-intersection :
    (name : String) (bs : List (List NamedTool))
    → offers_name name (intersection bs) ≡ (common bs name && offers_name name (union bs))
unfolding intersection
offers_name-intersection name bs = offers_name-firsts (common bs) name [] (union bs)

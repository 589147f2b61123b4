-- ===== src/Collision/Tests.antt =====
-- The collision strategies on two backends' tools.
use python_yamp.Prelude.{
  Bool, map, ◌+◌, String, ◌≡◌, ◌↔◌, true, List, [], ◌∷◌, is_some, All, elem, nat_eq, string_eq,
  option_eq, pair_eq, int_eq,
}
use python_yamp.Prelude.Dict.{Dict}
use python_yamp.Namespace.{split}
use python_yamp.Collision.Tallies.{tally, Distinct}
use python_yamp.Collision.{original_of, Tool, apply_priority, resolve_manual}
use python_yamp.Collision.Manual.{Injective, resolve_manual_iff}
use python_yamp.Collision.Ranking.{Represented, apply_priority_lem}

abbrev names : List String
names = "a__search" ∷ "b__search" ∷ []

abbrev renames : Dict String String
renames = ("a__search", "find") ∷ []

resolve_manual_iff_example :
    (is_some (resolve_manual names renames) ≡ true) ↔ Injective renames (λ n. elem n names)
resolve_manual_iff_example = resolve_manual_iff names renames

abbrev exposed_names : Dict String String
exposed_names = ("a__search", "find") ∷ ("b__search", "b__search") ∷ []

abbrev offered_tools : List Tool
offered_tools =
    record { name = "a__search"; tool = [] } ∷ record { name = "b__search"; tool = [] } ∷ []

apply_priority_lem_example :
    ((p : Tool → Bool)
      → tally p (apply_priority offered_tools split ("b" ∷ "a" ∷ [])).0
          + tally p (apply_priority offered_tools split ("b" ∷ "a" ∷ [])).1
        ≡ tally p offered_tools)
    × Distinct (
        map
          (λ t. original_of (split t.name) t.name)
          (apply_priority offered_tools split ("b" ∷ "a" ∷ [])).0)
    × All
        (Represented split ("b" ∷ "a" ∷ []) (apply_priority offered_tools split ("b" ∷ "a" ∷ [])).0)
        offered_tools
apply_priority_lem_example = apply_priority_lem offered_tools split ("b" ∷ "a" ∷ [])

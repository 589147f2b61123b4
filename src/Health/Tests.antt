-- ===== src/Health/Tests.antt =====
-- A backend that departs.
use python_yamp.Prelude.{
  ◌≡◌, refl, none, some, [], ◌∷◌, char_eq, nat_eq, string_eq, option_eq, pair_eq, pos, int_eq,
}
use python_yamp.Prelude.Dict.{get}
use python_yamp.Cache.{new_cache}
use python_yamp.Health.{Announced, same_ids, departed, invalidate_all, emit_if_surface_changed}
use python_yamp.Health.Departures.{departed_forgotten}

abbrev both_up : Announced
both_up = record { surface = "a" ∷ "b" ∷ []; cache = some (new_cache (pos 5)) }

departed_forgotten_example :
    get (invalidate_all ("b" ∷ []) (new_cache (pos 5))).entries_ ("b", "tools/list") ≡ none
unfolding emit_if_surface_changed same_ids departed
departed_forgotten_example =
    departed_forgotten ("a" ∷ []) both_up (new_cache (pos 5))
      (invalidate_all ("b" ∷ []) (new_cache (pos 5))) "b" "tools/list" refl refl refl refl

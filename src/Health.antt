-- ===== src/Health.antt =====
-- yamp/router.py and yamp/resilience.py: the set of available backends, and what its change sends.
mod Tests
pub mod Departures
use python_yamp.Prelude.{
  String, Bool, not, ◌&&◌, Option, none, some, List, [], ◌∷◌, if◌then◌else◌, all, keep, elem,
  char_eq, nat_eq, string_eq, option_eq, pair_eq, int_eq,
}
use python_yamp.Json.{Message}
use python_yamp.Jsonrpc.{notification}
use python_yamp.Cache.{ListCache, invalidate_backend}

-- The backends that were last announced, and the shared cache.
pub record Announced : Type 0 where
  pub surface : List String
  pub cache : Option ListCache

-- whether two sets of ids are one
unfoldable pub same_ids : List String → List String → Bool
same_ids a b = all (λ x. elem x b) a && all (λ x. elem x a) b

unfoldable pub available_ids : (String → Bool) → List String → List String
available_ids available backends = keep available backends

-- self._surface - current
unfoldable pub departed : List String → List String → List String
departed [] current = []
departed (id ∷ ids) current =
    let rest = departed ids current in if elem id current then rest else id ∷ rest

unfoldable pub invalidate_all : List String → ListCache → ListCache
invalidate_all [] c = c
invalidate_all (id ∷ ids) c = invalidate_all ids (invalidate_backend id c)

abbrev pub invalidated : List String → Option ListCache → Option ListCache
invalidated ids none = none
invalidated ids (some c) = some (invalidate_all ids c)

-- `emit_if_surface_changed`, with the available ids: what is kept, and the notes sent
unfoldable pub emit_if_surface_changed : List String → Announced → Announced × List Message
emit_if_surface_changed current s = if same_ids current s.surface then (s, []) else (
  record { surface = current; cache = invalidated (departed s.surface current) s.cache },
  notification "notifications/tools/list_changed" none ∷ [],
)

-- `ResilientRouter.surface_changed`: the ids last seen, and whether they changed
unfoldable pub surface_changed : List String → List String → List String × Bool
surface_changed current last_available = (current, not (same_ids current last_available))

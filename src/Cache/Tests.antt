-- ===== src/Cache/Tests.antt =====
-- The cache theorems on a short history.
use python_yamp.Prelude.{
  ◌≡◌, refl, none, some, List, [], ◌∷◌, arith, All, nat_eq, string_eq, option_eq, pair_eq, ℤ, pos,
  ◌≤ℤ◌, int_eq,
}
use python_yamp.Prelude.Dict.{get, insert}
use python_yamp.Json.{num, str, Message}
use python_yamp.Cache.{put, new_cache, lookup, drop_backend, invalidate_backend}
use python_yamp.Cache.Provenance.{
  Event, got, stored, invalidated, time, run, latest, visible, lookup-run,
}
use python_yamp.Cache.Isolation.{Source, lookup_isolated}

abbrev tools : Message
tools = ("ttlMs", num (pos 50)) ∷ ("cacheScope", str "private") ∷ []

abbrev history : List Event
history =
    stored (pos 0) "a" "tools/list" (some "ann") tools
    ∷ got (pos 5) "a" "tools/list" (some "bob")
    ∷ invalidated (pos 7) "b"
    ∷ []

history_times : (now : ℤ) → pos 7 ≤ℤ now → All (λ e. time e ≤ℤ now) history
history_times now h = ground arith

lookup-run_example :
    (lookup (pos 10) "a" "tools/list" (some "bob") (run history (new_cache (pos 100)))).1
    ≡ visible (pos 10) (some "bob") (latest (pos 100) ("a", "tools/list") history none)
lookup-run_example =
    lookup-run (pos 10) (pos 100) history "a" "tools/list" (some "bob")
      (history_times (pos 10) (ground arith))

lookup_isolated_example : Source "a" "tools/list" (some "ann") tools history
unfolding lookup run put invalidate_backend drop_backend get insert
lookup_isolated_example =
    lookup_isolated (pos 10) (pos 100) history "a" "tools/list" (some "ann") tools
      (history_times (pos 10) (ground arith)) refl

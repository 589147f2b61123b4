-- ===== src/Subscriptions/Tests.antt =====
-- The registry after a few requests.
use python_yamp.Prelude.{◌≡◌, false, List, [], ◌∷◌, nat_eq, string_eq, option_eq, pair_eq, int_eq}
use python_yamp.Subscriptions.{no_subscriptions, contains}
use python_yamp.Subscriptions.Registry.{
  Request, subscribes, unsubscribes, run, Once, last_wanted, contains-run,
}

abbrev requests : List Request
requests = subscribes "file:///a" ∷ subscribes "file:///a" ∷ unsubscribes "file:///a" ∷ []

contains-run_example :
    Once (run requests no_subscriptions).uris
    × (contains "file:///a" (run requests no_subscriptions)
        ≡ last_wanted "file:///a" false requests)
contains-run_example = contains-run "file:///a" requests

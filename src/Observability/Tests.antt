-- ===== src/Observability/Tests.antt =====
-- A request that has taken one hop already.
use python_yamp.Prelude.{List, [], ◌∷◌, ◌++◌, nat_eq, string_eq, option_eq, pair_eq, int_eq}
use python_yamp.Json.{Value, str, Message, list}
use python_yamp.Observability.{proxy_hops_key, proxy_hop}

abbrev first_hop : List Value
first_hop = proxy_hop "transparent" ∷ []

abbrev seen_meta : Message
seen_meta = (proxy_hops_key, list first_hop) ∷ ("traceparent", str "00-a-b-01") ∷ []

abbrev next_meta : Message
next_meta =
    (proxy_hops_key, list (first_hop ++ (proxy_hop "forward" ∷ [])))
    ∷ ("traceparent", str "00-a-b-01")
    ∷ []

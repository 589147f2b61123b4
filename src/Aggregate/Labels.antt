-- ===== src/Aggregate/Labels.antt =====
-- Every tool of a gathered list is an item of a backend that was asked, under the client's name for it.
use python_yamp.Prelude.{
  not, ◌⊎◌, leb_ℤ, ◌&&◌, ◌==◌, String, ◌≡◌, Bool, false, Option, none, some, [], char_eq, nat_eq,
  string_eq, option_eq, pair_eq, ℤ, int_eq,
}
use python_yamp.Cache.{Entry, ListCache}
use python_yamp.Prelude.Dict.{get_or, Dict, get}
use python_yamp.Json.{as_dict, dict, Message}
use python_yamp.Requests.{Sent}
use python_yamp.Aggregate.{CapabilityKind, Host, Query}
use python_yamp.Aggregate.Collect.{request_to}

-- The router's cache holds the result of the backend: fresh, and not another principal's.
abbrev pub CacheHolds : ℤ → CapabilityKind → Host → String → Message → Type 0
CacheHolds now cap h id r =
    (c : ListCache) × (e : Entry) × (h.cache ≡ some c)
    × (get c.entries_ (id, cap.list_method) ≡ some e)
    × (e.result ≡ r)
    × (leb_ℤ e.expires_at now ≡ false)
    × ((e.scope == "private" && not (e.principal == h.principal)) ≡ false)

module _ (available : String → Bool) (ask : Sent → Option Message) (now : ℤ) (cap : CapabilityKind)
    (h : Host) (Source : String → Message → Type 0)
    (cached : (id : String) (r : Message) → CacheHolds now cap h id r → Source id r) where
  -- the cache has nothing that the router's did not have
  abbrev Within : ListCache → Type 0
  Within c =
      (c0 : ListCache) × (h.cache ≡ some c0)
      × ((k : String × String) (e : Entry) → get c.entries_ k ≡ some e → get c0.entries_ k ≡ some e)

  abbrev Hits : Dict String Message → Type 0
  Hits hits = (id : String) (r : Message) → get hits id ≡ some r → Source id r

  abbrev Found : Option ListCache × Dict String Message → Type 0
  Found (none, hits) = Hits hits
  Found (some c, hits) = Within c × Hits hits

-- Where a backend's result is from: what it answers to the request that it is sent, or the cache.
abbrev pub ResultOf :
    (String → Bool)
    → (Sent → Option Message)
    → ℤ
    → CapabilityKind
    → Host
    → Query
    → Option (Dict String String)
    → String
    → Message
    → Type 0
ResultOf available ask now cap h q restrict id r =
    ((response : Message) × (ask (request_to available ask now cap h q restrict id) ≡ some response)
      × (as_dict (get_or response "result" (dict [])) ≡ some r))
    ⊎ CacheHolds now cap h id r

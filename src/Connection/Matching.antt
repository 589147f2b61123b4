-- ===== src/Connection/Matching.antt =====
-- Every caller gets the response to its own request, and none is left waiting.
use python_yamp.Prelude.{
  ℕ, String, ◌≡◌, refl, subst, ◌≢◌, inl, inr, Bool, true, false, Option, some, List, [], ◌∷◌, arith,
  if◌then◌else◌, Bool-cases, some_injective, char_eq, nat_eq, string_eq, option_eq, pair_eq, int_eq,
}
use python_yamp.Prelude.Dict.{get}
use python_yamp.Json.{str, Message}
use python_yamp.Resilience.Breaker.{CircuitBreaker}
use python_yamp.Namespace.{valid_backend_id}
use python_yamp.Connection.{
  waiting, resolved, Connection, new_connection, credentialed, start_request, shut, receive, expire,
  conclude,
}
use python_yamp.Connection.Soundness.{
  begun, Sound, shut-Sound, begun-Sound, take_answer-Sound, conclude-Sound, expire-Sound,
}

-- what happens on a connection, in its order
pub data Event : Type 0 where
  asked : String → Message → Event
  received : Message → Event
  expired : ℕ → String → Event
  concluded_at : ℕ → String → Event
  closed : Event

abbrev pub step : Event → Connection → Connection
step (asked method params) c = begun c (start_request method params c)
step (received message) c = if c.reading then (receive message c).0 else c
step (expired now mid) c = expire now mid c
step (concluded_at now mid) c = conclude now mid c
step closed c = shut c

unfoldable pub run : List Event → Connection → Connection
run [] c = c
run (e ∷ es) c = run es (step e c)

step-Sound : (e : Event) (c : Connection) → Sound c → Sound (step e c)
unfolding start_request receive conclude
step-Sound (asked method params) c sound = begun-Sound c method (credentialed params c.token) sound
step-Sound (received message) c sound =
    choose c.reading (take_answer-Sound message (get message "id") c refl sound)
  where
    choose : {c' : Connection} (b : Bool) → Sound c' → Sound (if b then c' else c)
    choose true s = s
    choose false s = sound
step-Sound (expired now mid) c sound = expire-Sound now mid c sound
step-Sound (concluded_at now mid) c sound = conclude-Sound now mid c (get c.futures mid) refl sound
step-Sound closed c sound = shut-Sound c sound

run-Sound : (es : List Event) (c : Connection) → Sound c → Sound (run es c)
unfolding run
run-Sound [] c sound = sound
run-Sound (e ∷ es) c sound = run-Sound es (step e c) (step-Sound e c sound)

new_connection-Sound :
    (id : String) (token : Option String) (breaker : Option CircuitBreaker) (c : Connection)
    → new_connection id token breaker ≡ some c
    → Sound c
unfolding new_connection get
new_connection-Sound id token breaker c h = elim (Bool-cases (valid_backend_id id)) [
  | inl valid ↦ subst Sound (some_injective _ c (rw valid at h)) (record {
    numbered = λ mid f e. absurd (ground (arith, e));
    listed = λ mid e. absurd (ground (arith, e));
    matched = λ mid m e. absurd (ground (arith, e));
  })
  | inr refused ↦ absurd (ground (arith, h, refused))
]

-- Whatever is asked, received and timed out on a connection, in any order: a response that a request got
-- carries that request's own id.
pub responses_match :
    (id : String) (token : Option String) (breaker : Option CircuitBreaker) (c : Connection)
    (es : List Event) (mid : String) (m : Message)
    → new_connection id token breaker ≡ some c
    → get (run es c).futures mid ≡ some (resolved m)
    → get m "id" ≡ some (str mid)
responses_match id token breaker c es mid m h =
    (run-Sound es c (new_connection-Sound id token breaker c h)).matched mid m

-- Whatever happened before, when a connection is closed no request waits any more: each has its response,
-- has timed out, or has failed.
pub closed_settles :
    (id : String) (token : Option String) (breaker : Option CircuitBreaker) (c : Connection)
    (es : List Event) (mid : String)
    → new_connection id token breaker ≡ some c
    → get (shut (run es c)).futures mid ≢ some waiting
unfolding shut
closed_settles id token breaker c es mid h waits = absurd (
    ground (
      arith,
      (shut-Sound (run es c) (run-Sound es c (new_connection-Sound id token breaker c h))).listed
          mid waits,
    ))

-- ===== src/Router/Tests.antt =====
-- A sampling request of one backend, answered after another backend's notification.
use python_yamp.Prelude.{
  ◌≡◌, refl, false, none, some, List, [], ◌∷◌, nat_eq, string_eq, option_eq, pair_eq, pos, int_eq,
}
use python_yamp.Prelude.Dict.{get, insert}
use python_yamp.Prelude.Text.{show_ℕ}
use python_yamp.Json.{null, num, str, Message}
use python_yamp.Router.{
  to_client, to_backend, Router, srv_id, refresh, rewrite_event, server_message, route_client_reply,
}
use python_yamp.Router.Correlation.{Fresh, Event, server, run}
use python_yamp.Router.Replies.{Asked, reply_returns}

abbrev idle_router : Router
idle_router = record {
  single = false;
  observed = false;
  cache = none;
  seq = 0;
  server_requests = [];
  pooled = λ v. false;
  token_to_call = λ v. none;
}

abbrev sampling : Message
sampling = ("id", num (pos 3)) ∷ ("method", str "sampling/createMessage") ∷ []

abbrev note : Message
note = ("method", str "notifications/message") ∷ []

abbrev between : List Event
between = server "b" note ∷ []

abbrev client_answer : Message
client_answer = ("id", str "srv-1") ∷ ("result", null) ∷ []

abbrev asking_router : Router
asking_router = record idle_router { seq = 1; server_requests = ("srv-1", ("a", num (pos 3))) ∷ [] }

idle_router-Fresh : Fresh idle_router
unfolding get
idle_router-Fresh n h = refl

-- what the client is shown
abbrev shown_request : Message
shown_request = ("id", str "srv-1") ∷ ("method", str "sampling/createMessage") ∷ []

reply_returns_example :
    Asked "a" sampling (num (pos 3)) idle_router asking_router (to_client shown_request ∷ [])
    × ((after : Router) × (route_client_reply client_answer asking_router
          ≡ some (after, to_backend "a" (insert client_answer "id" (num (pos 3))) ∷ []))
        × (get after.server_requests "srv-1" ≡ none))
unfolding run server_message refresh rewrite_event srv_id show_ℕ get insert
reply_returns_example =
    reply_returns "a" sampling (num (pos 3)) between client_answer idle_router asking_router
      asking_router (to_client shown_request ∷ []) idle_router-Fresh refl refl refl refl refl refl

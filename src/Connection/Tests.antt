-- ===== src/Connection/Tests.antt =====
-- A connection that answers one of its two requests before it closes.
use python_yamp.Prelude.{
  ◌≡◌, refl, true, none, some, List, [], ◌∷◌, char_eq, nat_eq, string_eq, option_eq, pair_eq,
  int_eq,
}
use python_yamp.Prelude.Dict.{get, insert}
use python_yamp.Json.{str, Message}
use python_yamp.Prelude.Text.{contains as in_text, strip_prefix, show_ℕ}
use python_yamp.Namespace.{all_id_chars, valid_backend_id}
use python_yamp.Connection.{
  waiting, Connection, new_connection, credentialed, request_id, start_request, settle, settle_at,
  shut, receive,
}
use python_yamp.Connection.Matching.{Event, asked, received, run, responses_match, closed_settles}

abbrev git_connection : Connection
git_connection = record {
  id = "git";
  token = none;
  next_id = 0;
  futures = [];
  pending = [];
  breaker = none;
  reading = true;
}

abbrev pong : Message
pong = ("id", str "git-2") ∷ []

abbrev exchanges : List Event
exchanges = asked "tools/list" [] ∷ asked "ping" [] ∷ received pong ∷ []

responses_match_example : get pong "id" ≡ some (str "git-2")
unfolding valid_backend_id all_id_chars in_text strip_prefix new_connection run start_request
    credentialed request_id show_ℕ receive settle_at settle get insert
responses_match_example =
    responses_match "git" none none git_connection exchanges "git-2" pong refl refl

closed_settles_example :
    ¬ (get (shut (run exchanges git_connection)).futures "git-1" ≡ some waiting)
unfolding valid_backend_id all_id_chars in_text strip_prefix new_connection
closed_settles_example = closed_settles "git" none none git_connection exchanges "git-1" refl

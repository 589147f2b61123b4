-- ===== src/Auth/Tests.antt =====
-- The credential theorems on a client that presents one.
use python_yamp.Prelude.{
  ◌≡◌, some, [], ◌∷◌, if◌then◌else◌, ◌==◌, nat_eq, string_eq, option_eq, pair_eq, int_eq,
}
use python_yamp.Prelude.Dict.{get}
use python_yamp.Json.{null, str, Message}
use python_yamp.Auth.{authorization_key, forward_meta}
use python_yamp.Auth.Confinement.{credential, get-forward_meta}

abbrev client_meta : Message
client_meta = ("authorization", str "Bearer client") ∷ ("claims", null) ∷ []

get-forward_meta_example : get (forward_meta client_meta (some "own")) "authorization" ≡ (
    if authorization_key == "authorization"
    then credential (some "own")
    else get client_meta "authorization")
get-forward_meta_example = get-forward_meta client_meta (some "own") "authorization"

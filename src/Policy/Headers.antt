-- ===== src/Policy/Headers.antt =====
-- What a backend learns of the client's headers.
use python_yamp.Prelude.{
  String, ◌≡◌, refl, ◌∙◌, false, Option, none, some, List, [], ◌∷◌, arith, any, ◌==◌, char_eq,
  nat_eq, string_eq, option_eq, pair_eq, int_eq,
}
use python_yamp.Prelude.Dict.{Dict, get, get-insert}
use python_yamp.Policy.{
  authorization, Headers, Rule, target, forwarded, forward_headers, injected, rules_for,
  backend_headers,
}

forward_headers_lem :
    (rs : List Rule) (client headers : Headers) (k : String)
    → any (λ r. target r == k) rs ≡ false
    → get (forward_headers rs client headers) k ≡ get headers k
unfolding forward_headers
forward_headers_lem [] client headers k h = refl
forward_headers_lem (r ∷ rs) client headers k h =
    forward_headers_lem rs client (forwarded r headers (get client r.name)) k (ground arith)
    ∙ one (get client r.name)
  where
    one : (o : Option String) → get (forwarded r headers o) k ≡ get headers k
    one none = refl
    one (some v) = rw get-insert (ground arith)

-- Unless a rule of the backend writes its Authorization header, that header is the backend's own
-- token, or none where the proxy holds none, whatever the client sent.
pub backend_headers_lem :
    (tokens : Dict String String) (rules : Dict String (List Rule)) (b : String) (client : Headers)
    → any (λ r. target r == authorization) (rules_for rules b) ≡ false
    → get (backend_headers tokens rules b client) authorization
      ≡ get (injected (get tokens b)) authorization
unfolding backend_headers
backend_headers_lem tokens rules b client h =
    forward_headers_lem (rules_for rules b) client (injected (get tokens b)) authorization h

-- ===== src/Policy.antt =====
-- yamp/policy.py: client tokens, and the headers that a backend receives.
pub mod Headers
use Prim.Native.String.{◌++◌ as append}
use python_yamp.Prelude.{
  ℕ, zero, suc, ◌+◌, ◌-◌, ◌*◌, ◌≤◌, ◌<◌, String, ◌≡◌, refl, sym, ap, ◌∙◌, subst, ◌≢◌, ◌↔◌, ◌⊎◌, inl,
  inr, Bool, true, false, not, ◌&&◌, ◌||◌, Option, none, some, List, [], ◌∷◌, ◌++◌, map, arith,
  eq_iff, eq_refl, ltb, leb, nat_beq, if◌then◌else◌, is_some, Bool-cases, Option-cases,
  some_injective, length, all, any, take, keep, length-append, All, All-append, Eq, ◌==◌, beq_refl,
  elem, int_beq_iff, char_beq_iff, char_eq, nat_eq, string_eq, option_eq, pair_eq, ℤ, pos, negsuc,
  pos_part, neg_part, ◌+ℤ◌, ◌≤ℤ◌, ltb_ℤ, leb_ℤ, int_eq,
}
use python_yamp.Prelude.Dict.{
  Dict, get, has, insert, remove, update, get_or, get-insert, get-remove, get-insert_self, keys,
  values, dict_laws,
}
use python_yamp.Prelude.Text.{strip_prefix}

abbrev pub authorization : String
authorization = "Authorization"

abbrev pub Headers : Type 0
Headers = Dict String String

-- a bearer header of one of the tokens
abbrev pub names_token : List String → Option String → Bool
names_token valid none = false
names_token valid (some token) = elem token valid

-- BearerAuthenticator.authenticate
unfoldable pub authenticate : List String → Headers → Bool
authenticate valid headers =
    names_token valid (strip_prefix "Bearer " (get_or headers authorization ""))

-- PolicyLayer.authorize_client, with the tokens of its authenticator if it has one
unfoldable pub authorize_client : Option (List String) → Headers → Bool
authorize_client none headers = true
authorize_client (some valid) headers = authenticate valid headers

-- a forward rule: the client's header, and the backend's name for it if it is renamed
pub record Rule : Type 0 where
  pub name : String
  pub backend_header : Option String

abbrev pub target : Rule → String
target r = elim r.backend_header [ none ↦ r.name | some h ↦ h ]

abbrev pub forwarded : Rule → Headers → Option String → Headers
forwarded r headers none = headers
forwarded r headers (some v) = insert headers (target r) v

unfoldable pub forward_headers : List Rule → Headers → Headers → Headers
forward_headers [] client headers = headers
forward_headers (r ∷ rs) client headers =
    forward_headers rs client (forwarded r headers (get client r.name))

abbrev pub injected : Option String → Headers
injected none = []
injected (some token) = (authorization, append "Bearer " token) ∷ []

abbrev pub rules_for : Dict String (List Rule) → String → List Rule
rules_for rules backend_id = get_or rules backend_id []

-- PolicyLayer.backend_headers
unfoldable pub backend_headers :
    Dict String String → Dict String (List Rule) → String → Headers → Headers
backend_headers tokens rules backend_id client =
    forward_headers (rules_for rules backend_id) client (injected (get tokens backend_id))

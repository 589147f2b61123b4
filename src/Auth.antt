-- ===== src/Auth.antt =====
-- yamp/auth.py: the credential a backend receives, claim checks, and the OAuth parameters.
pub mod Confinement
mod Tests
use Prim.Native.String.{◌++◌ as append}
use python_yamp.Prelude.{
  ℕ, zero, suc, ◌+◌, ◌-◌, ◌*◌, ◌≤◌, ◌<◌, String, ◌≡◌, refl, sym, ap, ◌∙◌, subst, ◌≢◌, ◌↔◌, ◌⊎◌, inl,
  inr, Bool, true, false, not, ◌&&◌, ◌||◌, Option, none, some, List, [], ◌∷◌, ◌++◌, map, arith,
  eq_iff, eq_refl, ltb, leb, nat_beq, if◌then◌else◌, is_some, Bool-cases, Option-cases, length, all,
  any, take, keep, length-append, All, All-append, Eq, ◌==◌, beq_refl, elem, nat_eq, string_eq,
  option_eq, pair_eq, ℤ, pos, negsuc, pos_part, neg_part, ◌+ℤ◌, ◌≤ℤ◌, ltb_ℤ, leb_ℤ, int_eq,
}
use python_yamp.Prelude.Dict.{
  Dict, get, has, insert, remove, update, get_or, get-insert, get-remove, get-insert_self, keys,
  values, dict_laws,
}
use python_yamp.Json.{
  Value, null, bool, num, str, arr, obj, Items, nil, cons, Fields, end, field, Message, entries,
  of_entries, items, of_items, entries-of_entries, dict, list, get_value, dict_or_empty, as_str,
  as_dict,
}

abbrev pub authorization_key : String
authorization_key = "authorization"

-- Bearer <token>
abbrev pub bearer : String → Value
bearer token = str (append "Bearer " token)

unfoldable pub forward_meta : Message → Option String → Message
forward_meta meta none = remove meta authorization_key
forward_meta meta (some token) =
    insert (remove meta authorization_key) authorization_key (bearer token)

abbrev pub is_str : String → Value → Bool
is_str s (str t) = t == s
is_str s _ = false

abbrev pub audiences : Value → List Value
audiences (arr vs) = items vs
audiences v = v ∷ []

unfoldable pub issuer_valid : Message → Option String → Bool
issuer_valid claims none = true
issuer_valid claims (some issuer) = is_str issuer (get_value claims "iss")

unfoldable pub audience_valid : Message → Option String → Bool
audience_valid claims none = true
audience_valid claims (some audience) = any (is_str audience) (audiences (get_value claims "aud"))

unfoldable pub claims_valid : Message → Option String → Option String → Bool
claims_valid claims issuer audience =
    if not (issuer_valid claims issuer)
    then false
    else if not (audience_valid claims audience)
    then false
    else true

abbrev pub optional : String → Option String → Message → Message
optional key none params = params
optional key (some v) params = insert params key (str v)

unfoldable pub token_exchange_request :
    String → Option String → Option String → String → Option String → Message
token_exchange_request subject_token audience scope subject_token_type requested_token_type =
    let params =
      ("grant_type", str "urn:ietf:params:oauth:grant-type:token-exchange")
      ∷ ("subject_token", str subject_token)
      ∷ ("subject_token_type", str subject_token_type)
      ∷ [] in
    optional "requested_token_type" requested_token_type
      (optional "scope" scope (optional "audience" audience params))

unfoldable pub parse_token_exchange_response : Value → Option String
parse_token_exchange_response (obj body) = as_str (get_value (entries body) "access_token")
parse_token_exchange_response _ = none

unfoldable pub authorization_request :
    String → String → String → Option String → Option String → Message
authorization_request client_id redirect_uri challenge scope state = optional "state" state (
    optional "scope" scope (
      ("response_type", str "code")
      ∷ ("client_id", str client_id)
      ∷ ("redirect_uri", str redirect_uri)
      ∷ ("code_challenge", str challenge)
      ∷ ("code_challenge_method", str "S256")
      ∷ []))

unfoldable pub token_request : String → String → String → String → Message
token_request client_id code redirect_uri code_verifier =
    ("grant_type", str "authorization_code")
    ∷ ("client_id", str client_id)
    ∷ ("code", str code)
    ∷ ("redirect_uri", str redirect_uri)
    ∷ ("code_verifier", str code_verifier)
    ∷ []

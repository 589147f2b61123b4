-- ===== src/Auth/Confinement.antt =====
-- A backend receives its own credential and never the client's.
use python_yamp.Prelude.{
  String, ◌≡◌, refl, ap, ◌↔◌, Bool, true, false, not, Option, none, some, arith, eq_iff,
  if◌then◌else◌, any, ◌==◌, nat_eq, string_eq, option_eq, pair_eq, int_eq,
}
use python_yamp.Prelude.Dict.{get, get-insert, get-remove}
use python_yamp.Json.{Value, null, bool, num, str, arr, obj, Message, items, get_value}
use python_yamp.Auth.{
  authorization_key, bearer, forward_meta, is_str, audiences, issuer_valid, audience_valid,
  claims_valid,
}

-- the credential of a backend
abbrev pub credential : Option String → Option Value
credential none = none
credential (some token) = some (bearer token)

-- The credential forwarded to a backend is the backend's own, or none where it has none, whatever
-- credential the client sent; every other entry is forwarded unchanged.
pub get-forward_meta :
    (meta : Message) (token : Option String) (k : String)
    → get (forward_meta meta token) k
      ≡ (if authorization_key == k then credential token else get meta k)
unfolding forward_meta
get-forward_meta meta none k = get-remove meta authorization_key k
get-forward_meta meta (some token) k = rw (get-insert, get-remove) (ground arith)

is_str_iff : (s : String) (v : Value) → (is_str s v ≡ true) ↔ (v ≡ str s)
is_str_iff s (str t) = (λ h. ap str ((eq_iff t s).0 h), λ e. ground (arith, eq_iff t s))
is_str_iff s null = (λ h. absurd (ground arith), λ e. absurd (ground arith))
is_str_iff s _ = (λ h. absurd (ground arith), λ e. absurd (ground arith))

-- What a configured value asks; nothing where none is configured.
abbrev pub Satisfies : (String → Type 0) → Option String → Type 0
Satisfies P none = Unit
Satisfies P (some s) = P s

issuer_valid_iff :
    (claims : Message) (issuer : Option String)
    → (issuer_valid claims issuer ≡ true) ↔ Satisfies (λ s. get_value claims "iss" ≡ str s) issuer
unfolding issuer_valid
issuer_valid_iff claims none = (λ _. tt, λ _. refl)
issuer_valid_iff claims (some s) = is_str_iff s (get_value claims "iss")

-- the audience is the text, or a list that holds it
abbrev pub Names : Value → String → Type 0
Names (arr vs) s = any (is_str s) (items vs) ≡ true
Names v s = v ≡ str s

audience_iff : (v : Value) (s : String) → (any (is_str s) (audiences v) ≡ true) ↔ Names v s
audience_iff (arr vs) s = (λ h. h, λ h. h)
audience_iff null s = (λ h. absurd (ground arith), λ e. absurd (ground arith))
audience_iff (bool b) s = (λ h. absurd (ground arith), λ e. absurd (ground arith))
audience_iff (num n) s = (λ h. absurd (ground arith), λ e. absurd (ground arith))
audience_iff (obj fs) s = (λ h. absurd (ground arith), λ e. absurd (ground arith))
audience_iff (str t) s =
    (λ h. (is_str_iff s (str t)).0 (ground arith), λ e. ground (arith, (is_str_iff s (str t)).1 e))

audience_valid_iff :
    (claims : Message) (audience : Option String)
    → (audience_valid claims audience ≡ true) ↔ Satisfies (Names (get_value claims "aud")) audience
unfolding audience_valid
audience_valid_iff claims none = (λ _. tt, λ _. refl)
audience_valid_iff claims (some s) = audience_iff (get_value claims "aud") s

both :
    (a b : Bool)
    → ((if not a then false else if not b then false else true) ≡ true) ↔ ((a ≡ true) × (b ≡ true))
both true true = (λ h. (refl, refl), λ h. refl)
both true false = (λ h. absurd (ground arith), λ (_, h). h)
both false b = (λ h. absurd (ground arith), λ (h, _). h)

-- A token is accepted exactly when its issuer is the configured one and its audience is the configured
-- one or a list that holds it, each where one is configured.
pub claims_valid_iff :
    (claims : Message) (issuer audience : Option String)
    → (claims_valid claims issuer audience ≡ true) ↔ (
        Satisfies (λ s. get_value claims "iss" ≡ str s) issuer
        × Satisfies (Names (get_value claims "aud")) audience)
unfolding claims_valid
claims_valid_iff claims issuer audience = (
  λ h.
      let (i, a) = (both _ _).0 h in
      ((issuer_valid_iff claims issuer).0 i, (audience_valid_iff claims audience).0 a),
  λ (i, a).
      (both _ _).1 ((issuer_valid_iff claims issuer).1 i, (audience_valid_iff claims audience).1 a),
)

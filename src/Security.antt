-- ===== src/Security.antt =====
-- yamp/security.py: the gate of the bind address. `strip` and `lower` are `str.strip` and `str.lower`.
mod Tests
pub mod Gate
use Prim.Native.String.{◌++◌ as append}
use python_yamp.Prelude.{
  String, Bool, ◌||◌, Option, none, some, List, [], ◌∷◌, if◌then◌else◌, elem, char_eq, nat_eq,
  string_eq, option_eq, pair_eq, int_eq,
}
use python_yamp.Prelude.Text.{starts_with}

abbrev pub default_bind_host : String
default_bind_host = "127.0.0.1"

module _ (strip lower : String → String) where
  unfoldable pub is_loopback : String → Bool
  is_loopback host =
      let h = lower (strip host) in
      elem h ("localhost" ∷ "::1" ∷ "[::1]" ∷ []) || starts_with h "127."

  abbrev pub refusal_text : String → String
  refusal_text host = append "refusing to bind non-loopback address " (
      append host (
        append " without client authentication; bind "
          (append default_bind_host ", set auth.clientTokens, or pass --insecure")))

  -- the message of each finding; its level and code are constants
  unfoldable pub check_bind : String → Bool → List String
  check_bind host has_client_auth =
      if is_loopback host || has_client_auth then [] else refusal_text host ∷ []

  -- listen.rsplit(":", 1)[0]: `none` where there is no ":"
  unfoldable pub before_last : List String → String
  before_last [] = ""
  before_last (a ∷ []) = a
  before_last (a ∷ b ∷ []) = a
  before_last (a ∷ b ∷ c ∷ parts) = append a (append ":" (before_last (b ∷ c ∷ parts)))

  -- `guard_bind`, with the listen address as it is split at every ":"
  unfoldable pub guard_bind : List String → Bool → Bool → Option String
  guard_bind listen has_client_auth insecure =
      elim (check_bind (before_last listen) has_client_auth) [
        | [] ↦ none
        | message ∷ rest ↦ if insecure then none else some message
      ]

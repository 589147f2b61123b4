-- ===== src/Server.antt =====
-- yamp/server.py: cache directives on the server's own lists, and the bound on its output.
use python_yamp.Prelude.{
  ℕ, String, Bool, false, [], ◌∷◌, if◌then◌else◌, char_eq, nat_eq, string_eq, option_eq, pair_eq, ℤ,
  pos, ltb_ℤ, leb_ℤ, int_eq,
}
use python_yamp.Prelude.Dict.{update}
use python_yamp.Json.{Value, num, str, Message}
use python_yamp.Cache.{ttl_ms_key, cache_scope_key}

-- `size` is the length of the encoded result, which the json library gives
unfoldable pub exceeds_output_cap : (Value → ℕ) → Value → ℤ → Bool
exceeds_output_cap size v max_bytes =
    if leb_ℤ max_bytes (pos 0) then false else ltb_ℤ max_bytes (pos (size v))

unfoldable pub list_directives : ℤ → String → Message
list_directives ttl_ms cache_scope =
    (ttl_ms_key, num ttl_ms) ∷ (cache_scope_key, str cache_scope) ∷ []

unfoldable pub attach_directives : Message → ℤ → String → Message
attach_directives body ttl_ms cache_scope = update body (list_directives ttl_ms cache_scope)

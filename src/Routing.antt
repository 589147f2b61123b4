-- ===== src/Routing.antt =====
-- yamp/routing.py: name patterns, and the choice of backends by keywords.
pub mod Patterns
use python_yamp.Prelude.{
  ℕ, zero, suc, ◌+◌, ◌-◌, ◌*◌, ◌≤◌, ◌<◌, String, ◌≡◌, refl, sym, ap, ◌∙◌, subst, ◌≢◌, ◌↔◌, ◌⊎◌, inl,
  inr, Bool, true, false, not, ◌&&◌, ◌||◌, Option, none, some, List, [], ◌∷◌, ◌++◌, map, arith,
  eq_iff, eq_refl, ltb, leb, nat_beq, if◌then◌else◌, is_some, Bool-cases, Option-cases, length, all,
  any, take, keep, length-append, All, All-append, Eq, ◌==◌, beq_refl, elem, nat_eq, string_eq,
  option_eq, pair_eq, ℤ, pos, negsuc, pos_part, neg_part, ◌+ℤ◌, ◌≤ℤ◌, ltb_ℤ, leb_ℤ, int_eq,
}
use python_yamp.Prelude.Dict.{
  Dict, get, has, insert, remove, update, get_or, get-insert, get-remove, get-insert_self, keys,
  values, dict_laws,
}
use python_yamp.Json.{
  Value, null, bool, num, str, arr, obj, Items, nil, cons, Fields, end, field, Message, entries,
  of_entries, items, of_items, entries-of_entries, dict, list, get_value, dict_or_empty, as_str,
  as_dict,
}
use python_yamp.Prelude.Text.{strip_prefix, starts_with, contains}

-- s.endswith(p): the suffix p stands at some place of s
abbrev pub ends_with : String → String → Bool
ends_with String.[] p = p == ""
ends_with (String.◌∷◌ c s) p = (String.◌∷◌ c s == p) || ends_with s p

-- s[:-1] and s[1:]
abbrev pub without_last : String → String
without_last String.[] = ""
without_last (String.◌∷◌ c String.[]) = ""
without_last (String.◌∷◌ c (String.◌∷◌ d s)) = String.◌∷◌ c (without_last (String.◌∷◌ d s))

abbrev pub without_first : String → String
without_first String.[] = ""
without_first (String.◌∷◌ c s) = s

unfoldable pub glob : String → String → Bool
glob pattern name =
    if pattern == "*"
    then true
    else if starts_with pattern "*" && ends_with pattern "*"
    then contains (without_last (without_first pattern)) name
    else if ends_with pattern "*"
    then starts_with name (without_last pattern)
    else if starts_with pattern "*"
    then ends_with name (without_first pattern)
    else name == pattern

unfoldable pub name_matches : String → List String → Bool
name_matches name [] = true
name_matches name (p ∷ ps) = any (λ pattern. glob pattern name) (p ∷ ps)

-- A backend is skipped where both lists have words and share none.
unfoldable pub backend_selected : List String → List String → Bool
backend_selected [] filter_keywords = true
backend_selected (k ∷ ks) [] = true
backend_selected (k ∷ ks) (f ∷ fs) = any (λ w. elem w (f ∷ fs)) (k ∷ ks)

unfoldable pub server_card : Message
server_card =
    ("name", str "yamp")
    ∷ ("version", str "0.0.0")
    ∷ ("protocolVersions", list (str "2026-07-28" ∷ str "2025-06-18" ∷ []))
    ∷ ("transports", list (str "stdio" ∷ str "streamable-http" ∷ []))
    ∷ ("role", str "intermediary")
    ∷ []

-- status.snapshot
unfoldable pub snapshot : List String → ℕ → Message
snapshot backend_ids sessions =
    ("status", str "ok")
    ∷ ("name", get_value server_card "name")
    ∷ ("version", get_value server_card "version")
    ∷ ("role", get_value server_card "role")
    ∷ ("protocolVersions", get_value server_card "protocolVersions")
    ∷ ("backends", list (map (λ b. dict (("id", str b) ∷ [])) backend_ids))
    ∷ ("sessions", num (pos sessions))
    ∷ []

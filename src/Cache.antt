-- ===== src/Cache.antt =====
-- yamp/cache.py: the shared cache of backend list results. The injected clock is an argument, the
-- monotonic time in milliseconds; the source keeps seconds and divides `ttlMs` by 1000.
pub mod Provenance
pub mod Isolation
mod Tests
use python_yamp.Prelude.{
  ℕ, zero, suc, ◌+◌, ◌-◌, ◌*◌, ◌≤◌, ◌<◌, String, ◌≡◌, refl, sym, ap, ◌∙◌, subst, ◌≢◌, ◌↔◌, ◌⊎◌, inl,
  inr, Bool, true, false, not, ◌&&◌, ◌||◌, Option, none, some, [], ◌∷◌, ◌++◌, map, arith, eq_iff,
  eq_refl, ltb, leb, nat_beq, if◌then◌else◌, is_some, Bool-cases, Option-cases, length, all, any,
  take, keep, length-append, All, All-append, Eq, ◌==◌, beq_refl, elem, nat_eq, string_eq,
  option_eq, pair_eq, ℤ, pos, negsuc, pos_part, neg_part, ◌+ℤ◌, ◌≤ℤ◌, ltb_ℤ, leb_ℤ, int_eq,
}
use python_yamp.Prelude.Dict.{
  Dict, get, has, insert, remove, update, get_or, get-insert, get-remove, get-insert_self, keys,
  values, dict_laws,
}
use python_yamp.Json.{
  Value, null, bool, num, str, arr, obj, Items, nil, cons, Fields, end, field, Message, entries,
  of_entries, items, of_items, entries-of_entries, dict, list, get_value, dict_or_empty, as_str,
  as_dict,
}

abbrev pub ttl_ms_key : String
ttl_ms_key = "ttlMs"

abbrev pub cache_scope_key : String
cache_scope_key = "cacheScope"

abbrev pub public_scope : String
public_scope = "public"

abbrev pub private_scope : String
private_scope = "private"

pub record Entry : Type 0 where
  pub result : Message
  pub expires_at : ℤ
  pub scope : String
  pub principal : Option String

pub record ListCache : Type 0 where
  pub default_ttl_ms : ℤ
  pub entries_ : Dict (String × String) Entry

abbrev pub new_cache : ℤ → ListCache
new_cache default_ttl_ms = record { default_ttl_ms = default_ttl_ms; entries_ = [] }

abbrev pub serve :
    ℤ → (String × String) → Option String → ListCache → Option Entry → ListCache × Option Message
serve now key principal c none = (c, none)
serve now key principal c (some entry) =
    if leb_ℤ entry.expires_at now
    then (record c { entries_ = remove c.entries_ key }, none)
    else if entry.scope == private_scope && not (entry.principal == principal)
    then (c, none)
    else (c, some entry.result)

-- ListCache.get
unfoldable pub lookup : ℤ → String → String → Option String → ListCache → ListCache × Option Message
lookup now backend_id method principal c =
    serve now (backend_id, method) principal c (get c.entries_ (backend_id, method))

-- a number that is not a bool, else the default
abbrev pub ttl_of : ℤ → Option Value → ℤ
ttl_of default_ttl (some (num n)) = n
ttl_of default_ttl _ = default_ttl

abbrev pub scope_of : Option Value → String
scope_of (some (str s)) = if s == private_scope then private_scope else public_scope
scope_of _ = public_scope

-- ListCache.put
unfoldable pub put : ℤ → String → String → Option String → Message → ListCache → ListCache
put now backend_id method principal result c =
    let ttl_ms = ttl_of c.default_ttl_ms (get result ttl_ms_key) in
    let scope = scope_of (get result cache_scope_key) in
    if leb_ℤ ttl_ms (pos 0)
    then record c { entries_ = remove c.entries_ (backend_id, method) }
    else record c {
      entries_ =
          insert c.entries_ (backend_id, method)
            (record {
              result = result;
              expires_at = now +ℤ ttl_ms;
              scope = scope;
              principal = if scope == private_scope then principal else none;
            });
    }

unfoldable pub drop_backend : String → Dict (String × String) Entry → Dict (String × String) Entry
drop_backend backend_id [] = []
drop_backend backend_id ((key, entry) ∷ d) =
    let rest = drop_backend backend_id d in
    if key.0 == backend_id then rest else (key, entry) ∷ rest

-- ListCache.invalidate_backend
unfoldable pub invalidate_backend : String → ListCache → ListCache
invalidate_backend backend_id c = record c { entries_ = drop_backend backend_id c.entries_ }

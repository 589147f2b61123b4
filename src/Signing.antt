-- ===== src/Signing.antt =====
-- yamp/signing.py: the audit log of signed, hash-chained records.
pub mod Evidence
mod Tests
use Prim.Native.String.{◌++◌ as append}
use python_yamp.Prelude.{
  ℕ, zero, suc, ◌+◌, ◌-◌, ◌*◌, ◌≤◌, ◌<◌, String, ◌≡◌, refl, sym, ap, ◌∙◌, subst, ◌≢◌, ◌↔◌, ◌⊎◌, inl,
  inr, Bool, true, false, not, ◌&&◌, ◌||◌, Option, none, some, List, [], ◌∷◌, ◌++◌, map, arith,
  eq_iff, eq_refl, ltb, leb, nat_beq, if◌then◌else◌, is_some, Bool-cases, Option-cases, length, all,
  any, take, keep, length-append, All, All-append, Eq, ◌==◌, beq_refl, elem, nat_eq, string_eq,
  option_eq, pair_eq, ℤ, pos, negsuc, pos_part, neg_part, ◌+ℤ◌, ◌≤ℤ◌, ltb_ℤ, leb_ℤ, int_eq,
}
use python_yamp.Prelude.Dict.{
  Dict, get, has, insert, remove, update, get_or, get-insert, get-remove, get-insert_self, keys,
  values, dict_laws,
}
use python_yamp.Json.{
  Value, null, bool, num, str, arr, obj, Items, nil, cons, Fields, end, field, Message, entries,
  of_entries, items, of_items, entries-of_entries, dict, list, get_value, dict_or_empty, as_str,
  as_dict,
}

-- GENESIS
abbrev pub genesis : String
genesis = "0000000000000000000000000000000000000000000000000000000000000000"

unfoldable pub attestation_record : String → String → Value → Message
attestation_record principal method name =
    ("type", str "attestation")
    ∷ ("principal", str principal)
    ∷ ("method", str method)
    ∷ ("name", name)
    ∷ []

unfoldable pub outcome_record : String → Value → Bool → Message
outcome_record method name ok =
    ("type", str "outcome") ∷ ("method", str method) ∷ ("name", name) ∷ ("ok", bool ok) ∷ []

pub record Entry : Type 0 where
  pub body : Message
  pub prev : String
  pub signature : String
  pub hash : String

pub record AuditLog : Type 0 where
  pub secret : String
  pub origin : String
  pub head : String
  pub records : List Entry

abbrev pub new_log : String → String → AuditLog
new_log secret origin = record { secret = secret; origin = origin; head = origin; records = [] }

-- Byte strings are texts. The standard library gives the canonical bytes of a record (`json.dumps`),
-- the hexadecimal SHA-256 digest, and the hexadecimal HMAC-SHA256 of a key and a message.
module _ (canonical : Message → String) (sha256 : String → String)
    (hmac : String → String → String) where
  unfoldable pub sign : String → Message → String
  sign secret body = hmac secret (canonical body)

  unfoldable pub verify : String → Message → String → Bool
  verify secret body signature = sign secret body == signature

  abbrev pub link : String → String → String
  link prev bytes = append prev (append "|" bytes)

  unfoldable pub chain : String → Message → String
  chain prev body = sha256 (link prev (canonical body))

  abbrev pub entry_after : String → String → Message → Entry
  entry_after secret head body = record {
    body = body;
    prev = head;
    signature = sign secret body;
    hash = chain head body;
  }

  unfoldable pub append_record : Message → AuditLog → AuditLog
  append_record body log =
      let entry = entry_after log.secret log.head body in
      record {
        secret = log.secret;
        origin = log.origin;
        head = entry.hash;
        records = log.records ++ (entry ∷ []);
      }

  unfoldable pub intact : String → String → List Entry → Bool
  intact secret head [] = true
  intact secret head (entry ∷ rest) =
      let later = intact secret entry.hash rest in
      if not (verify secret entry.body entry.signature)
      then false
      else if not (entry.prev == head)
      then false
      else if not (chain head entry.body == entry.hash)
      then false
      else later

  unfoldable pub verify_log : AuditLog → Bool
  verify_log log = intact log.secret log.origin log.records

-- ===== src/Signing/Tests.antt =====
-- The audit log with a digest that is constant and signatures that are the bytes.
use python_yamp.Prelude.{
  String, ◌≡◌, refl, ◌↔◌, ◌⊎◌, true, [], ◌∷◌, map, nat_eq, string_eq, option_eq, pair_eq, int_eq,
}
use python_yamp.Json.{null, Message}
use python_yamp.Signing.{verify, genesis, AuditLog, sign, chain, intact, verify_log}
use python_yamp.Signing.Evidence.{replay, verify_log_iff, Clash, bytes, tamper_evident}

abbrev canonical : Message → String
canonical [] = "{}"
canonical (e ∷ es) = "{...}"

abbrev sha256 : String → String
sha256 s = genesis

abbrev hmac : String → String → String
hmac key bytes = bytes

abbrev log : AuditLog
log = record {
  secret = "s";
  origin = genesis;
  head = genesis;
  records = record { body = []; prev = genesis; signature = "{}"; hash = genesis } ∷ [];
}

verify_log_iff_example :
    (verify_log canonical sha256 hmac log ≡ true)
    ↔ (log.records ≡ replay canonical sha256 hmac "s" genesis (map (λ e. e.body) log.records))
verify_log_iff_example = verify_log_iff canonical sha256 hmac log

-- another record in its place
abbrev other_log : AuditLog
other_log = record {
  secret = "t";
  origin = genesis;
  head = genesis;
  records =
      record { body = ("ok", null) ∷ []; prev = genesis; signature = "{...}"; hash = genesis } ∷ [];
}

tamper_evident_example :
    Clash canonical sha256 hmac log.records other_log.records
    ⊎ (bytes canonical sha256 hmac log.records ≡ bytes canonical sha256 hmac other_log.records)
unfolding verify_log intact verify sign chain
tamper_evident_example =
    tamper_evident canonical sha256 hmac 64 log other_log (λ s. refl) refl refl refl refl refl refl

-- ===== src/Callout/Tests.antt =====
-- Scans with a service that is gone, and with one that allows everything.
use python_yamp.Prelude.{
  ℕ, suc, ◌≡◌, refl, none, some, [], ◌∷◌, if◌then◌else◌, ◌==◌, char_eq, nat_eq, string_eq,
  option_eq, pair_eq, int_eq,
}
use python_yamp.Prelude.Dict.{get, insert}
use python_yamp.Json.{str, Message, dict}
use python_yamp.Callout.{
  Codec, Reply, gone, payload, CalloutClient, content_digest, callout_request, exceeds_budget,
  verdict_fields, verdict_for, parse_verdict, stored, judged, call, exchange, escalate, unasked,
  scan,
}
use python_yamp.Callout.Scans.{scan_again}

abbrev pub tiny_codec : Codec
tiny_codec = record {
  b64encode = λ b. "encoded";
  b64decode = λ s. none;
  hex = λ b. "00";
  unhex = λ s. some [];
  utf8_encode = λ s. some (7 ∷ []);
  utf8_decode = λ b. "text";
  sha256 = λ b. "digest";
  decode = λ s. if s == "ok" then some (dict (("verdict", str "allow") ∷ [])) else none;
}

abbrev pub strict_client : CalloutClient
strict_client = record { failure_policy = "fail_closed"; max_bytes = 0; preview_bytes = 0 }

abbrev pub gone_service : ℕ → Message → Reply × ℕ
gone_service t m = (gone, t)

abbrev allowing_service : ℕ → Message → Reply × ℕ
allowing_service t m = (payload "ok", suc t)

scan_again_example :
    scan tiny_codec allowing_service strict_client []
      (1 ∷ [])
      (scan tiny_codec allowing_service strict_client [] (1 ∷ []) (some []) 0).cache
      5
    ≡ unasked tiny_codec allowing_service strict_client
        (("kind", str "allow") ∷ [])
        (scan tiny_codec allowing_service strict_client [] (1 ∷ []) (some []) 0).cache
        5
unfolding scan exchange escalate call judged parse_verdict verdict_for verdict_fields get insert
    stored exceeds_budget content_digest callout_request
scan_again_example =
    scan_again tiny_codec allowing_service strict_client [] [] (1 ∷ []) [] 0 5
      (("kind", str "allow") ∷ []) refl refl

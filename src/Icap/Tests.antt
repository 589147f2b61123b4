-- ===== src/Icap/Tests.antt =====
-- A response that is clean, and a message while the service is gone.
use python_yamp.Prelude.{
  ◌≡◌, refl, none, some, [], ◌∷◌, char_eq, nat_eq, string_eq, option_eq, pair_eq, pos, int_eq,
}
use python_yamp.Prelude.Dict.{get}
use python_yamp.Json.{null, num, str, Message, dict, list}
use python_yamp.Filters.{Context}
use python_yamp.Filters.Interests.{mimes_of, message_context}
use python_yamp.Callout.Tests.{tiny_codec, strict_client, gone_service}
use python_yamp.Content.{
  key, index, Block, items_or_none, own_block, content_block, enumerated, result_blocks, blocks,
}
use python_yamp.Icap.{block_payload, scan_message}
use python_yamp.Icap.Bridge.{verdict_kind, expected_kind, icap_verdict}
use python_yamp.Icap.Outage.{Refused, scan_message-Refused}

icap_verdict_example :
    verdict_kind tiny_codec "fail_open" (("status", num (pos 403)) ∷ [])
    ≡ some (expected_kind (("status", num (pos 403)) ∷ []))
icap_verdict_example = icap_verdict tiny_codec "fail_open" (("status", num (pos 403)) ∷ [])

abbrev text_message : Message
text_message =
    ("id", num (pos 1))
    ∷ (
      "result",
      dict (("content", list (dict (("type", str "text") ∷ ("text", str "hi") ∷ []) ∷ [])) ∷ []),
    )
    ∷ []

abbrev text_block : Block
text_block = record {
  kind = "text";
  path = key "result" ∷ key "content" ∷ index 0 ∷ key "text" ∷ [];
  mime = null;
  uri = null;
  text = str "hi";
  bytes = null;
}

abbrev text_context : Context
text_context = record { method = none; direction = "u2c"; tool = none; types = [] }

scan_message-Refused_example :
    Refused (scan_message tiny_codec gone_service strict_client text_message "u2c" 0 none).outcome
unfolding message_context blocks result_blocks enumerated content_block own_block items_or_none
    mimes_of block_payload get
scan_message-Refused_example =
    scan_message-Refused tiny_codec gone_service strict_client text_message "u2c" text_context [] []
      text_block (7 ∷ []) 0 none refl (λ t m. refl) refl refl tt refl refl

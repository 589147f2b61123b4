-- ===== src/Stateless/Tests.antt =====
-- A stateless call of a known backend.
use python_yamp.Prelude.{
  String, ◌≡◌, refl, Option, none, [], ◌∷◌, char_eq, nat_eq, string_eq, option_eq, pair_eq, int_eq,
}
use python_yamp.Prelude.Dict.{get, insert}
use python_yamp.Forward.{proxy_server_info}
use python_yamp.Json.{Value, str, dict}
use python_yamp.Prelude.Text.{contains as in_text, strip_prefix}
use python_yamp.Namespace.{all_id_chars, valid_backend_id, prefix}
use python_yamp.Version.{negotiate}
use python_yamp.Stateless.{StatelessRequest, StatelessResponse, handle}
use python_yamp.Stateless.Forwarding.{sent_by, handle_reaches}

abbrev dumps_none : Value → String
dumps_none v = ""

abbrev loads_none : String → Option Value
loads_none s = none

abbrev exchange_none : String → StatelessRequest → Option StatelessResponse
exchange_none id r = none

abbrev status_call : StatelessRequest
status_call = record {
  method = str "tools/call";
  name = str (prefix "git" "status");
  meta = dict (("client", str "c") ∷ []);
  body = str "opaque";
}

handle_reaches_example :
    sent_by (handle dumps_none loads_none exchange_none ("git" ∷ []) status_call)
    ≡ (
      "git",
      record {
        method = str "tools/call";
        name = str "status";
        meta = dict (
            insert
              (insert
                (("client", str "c") ∷ [])
                "io.modelcontextprotocol/clientInfo"
                (dict proxy_server_info))
              "io.modelcontextprotocol/protocolVersion"
              (str "2026-07-28"));
        body = str "opaque";
      },
    )
      ∷ []
unfolding valid_backend_id all_id_chars in_text strip_prefix negotiate get
handle_reaches_example =
    handle_reaches dumps_none loads_none exchange_none ("git" ∷ []) status_call "git" "status"
      "2026-07-28" (("client", str "c") ∷ []) refl refl refl refl refl refl (λ h. cc) refl

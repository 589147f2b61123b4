-- ===== src/Stateless/Forwarding.antt =====
-- A stateless call reaches the backend that its name carries, with its body as it came.
use Prim.Native.String.{◌++◌ as append}
use python_yamp.Prelude.{
  String, ◌≡◌, refl, ap, ◌∙◌, ◌≢◌, true, false, Option, none, some, List, [], ◌∷◌, if◌then◌else◌,
  elem, char_eq, nat_eq, string_eq, option_eq, pair_eq, negsuc, int_eq,
}
use python_yamp.Prelude.Dict.{insert}
use python_yamp.Forward.{proxy_server_info}
use python_yamp.Json.{Value, str, Message, entries-of_entries, dict, as_dict}
use python_yamp.Namespace.{valid_backend_id, prefix}
use python_yamp.Namespace.Names.{ends_low, split-prefix}
use python_yamp.Stateless.{
  is_text, shown_method, StatelessRequest, StatelessResponse, Handled, handled, raised, refused,
  requested_of, negotiated, discover, forwarded_request, forwarded_meta, exchanged, call_resolved,
  call_by, call, handle_at, handle,
}

abbrev pub sent_by : Handled → List (String × StatelessRequest)
sent_by (handled sent response) = sent
sent_by (raised sent) = sent

module _ (dumps : Value → String) (loads : String → Option Value)
    (exchange : String → StatelessRequest → Option StatelessResponse) where
  pub exchanged-sent :
      (id : String) (r : StatelessRequest) (response : Option StatelessResponse)
      → sent_by (exchanged dumps loads exchange id r response) ≡ (id, r) ∷ []
  exchanged-sent id r none = refl
  exchanged-sent id r (some response) = refl

  -- A tool call under a version that the proxy serves, for the name `prefix b original`, is sent to the
  -- backend `b` alone: under its own name for the tool, with the body as it came, and with the client's
  -- `_meta` under the proxy's identity and that version; for a known backend with a valid identifier
  -- that does not end in "_", and a name that is not empty.
  pub handle_reaches :
      (ids : List String) (r : StatelessRequest) (b original version : String) (meta : Message)
      → r.method ≡ str "tools/call"
      → r.name ≡ str (prefix b original)
      → r.meta ≡ dict meta
      → negotiated dumps loads exchange (requested_of dumps loads exchange r.meta) ≡ some version
      → valid_backend_id b ≡ true
      → ends_low b ≡ false
      → original ≢ ""
      → elem b ids ≡ true
      → sent_by (handle dumps loads exchange ids r)
        ≡ (
          b,
          record {
            method = str "tools/call";
            name = str original;
            meta = dict (
                insert
                  (insert meta "io.modelcontextprotocol/clientInfo" (dict proxy_server_info))
                  "io.modelcontextprotocol/protocolVersion"
                  (str version));
            body = r.body;
          },
        )
          ∷ []
  unfolding handle call forwarded_meta
  handle_reaches ids r b original version meta is_call named held runs v l full known =
      ap
        (λ o.
          sent_by
            (handle_at dumps loads exchange ids r (requested_of dumps loads exchange r.meta) o))
        runs
      ∙ ap
          (λ m. sent_by (
            if is_text m "server/discover"
            then discover dumps loads exchange ids
            else if is_text m "tools/call"
            then call dumps loads exchange ids r version
            else refused dumps loads exchange (negsuc 32600)
                (append "method not routable: " (shown_method r.method)) none))
          is_call
      ∙ ap (λ n. sent_by (call_by dumps loads exchange ids r version n)) named
      ∙ ap
          (λ o. sent_by (
            call_resolved dumps loads exchange ids r version (prefix b original) (as_dict r.meta)
              o))
          (split-prefix b original v l full)
      ∙ ap
          (λ m. sent_by (
            call_resolved dumps loads exchange ids r version (prefix b original) m
              (some (b, original))))
          (ap as_dict held ∙ ap some (entries-of_entries meta))
      ∙ ap
          (λ x. sent_by (
            if x
            then exchanged dumps loads exchange b
                (forwarded_request dumps loads exchange r meta version original)
                (exchange b (forwarded_request dumps loads exchange r meta version original))
            else refused dumps loads exchange (negsuc 32601)
                (append "unknown tool: " (prefix b original)) none))
          known
      ∙ exchanged-sent b (forwarded_request dumps loads exchange r meta version original)
          (exchange b (forwarded_request dumps loads exchange r meta version original))

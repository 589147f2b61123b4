-- ===== src/Errors.antt =====
-- yamp/errors.py: the registry of the error codes that the proxy sends.
pub mod Registry
use Prim.Native.String.{◌++◌ as append}
use python_yamp.Prelude.{
  ℕ, zero, suc, ◌+◌, ◌-◌, ◌*◌, ◌≤◌, ◌<◌, String, ◌≡◌, refl, sym, ap, ◌∙◌, subst, ◌≢◌, ◌↔◌, ◌⊎◌, inl,
  inr, Bool, true, false, not, ◌&&◌, ◌||◌, Option, none, some, List, [], ◌∷◌, ◌++◌, map, arith,
  eq_iff, eq_refl, ltb, leb, nat_beq, if◌then◌else◌, is_some, Bool-cases, Option-cases,
  some_injective, length, all, any, take, keep, length-append, All, All-append, Eq, ◌==◌, beq_refl,
  elem, int_beq_iff, char_beq_iff, char_eq, nat_eq, string_eq, option_eq, pair_eq, ℤ, pos, negsuc,
  pos_part, neg_part, ◌+ℤ◌, ◌≤ℤ◌, ltb_ℤ, leb_ℤ, int_eq,
}
use python_yamp.Prelude.Dict.{
  Dict, get, has, insert, remove, update, get_or, get-insert, get-remove, get-insert_self, keys,
  values, dict_laws,
}
use python_yamp.Json.{
  Value, null, bool, num, str, arr, obj, Items, nil, cons, Fields, end, field, Message, entries,
  of_entries, items, of_items, entries-of_entries, dict, list, get_value, dict_or_empty, as_str,
  as_dict,
}

pub record Description : Type 0 where
  pub id : String
  pub reason : String
  pub cause : String
  pub hint : String

-- REGISTRY, keyed by code as `_BY_CODE` is
abbrev pub registry : Dict ℤ Description
registry =
    (
      negsuc 32599,
      record {
        id = "E4000";
        reason = "Invalid Request";
        cause = "The message is not a well-formed JSON-RPC request object.";
        hint = "Send a JSON-RPC 2.0 request carrying jsonrpc, method, and id.";
      },
    )
    ∷ (
      negsuc 32601,
      record {
        id = "E4002";
        reason = "Invalid Params";
        cause = "The request's params do not match the method's expected shape.";
        hint = "Check the tool's inputSchema and correct the arguments.";
      },
    )
    ∷ (
      negsuc 32600,
      record {
        id = "E4004";
        reason = "Method Not Found";
        cause = "The requested method or namespaced tool is exposed by no backend or handler.";
        hint = "List the available tools and call one of the exposed names.";
      },
    )
    ∷ (
      negsuc 32001,
      record {
        id = "E4010";
        reason = "Unauthorized";
        cause = "The client's token failed issuer or audience validation, or none was presented.";
        hint = "Present a token whose iss and aud match the proxy's configured values.";
      },
    )
    ∷ (
      negsuc 32000,
      record {
        id = "E4030";
        reason = "Policy Denied";
        cause = "A policy rule or extension filter denied the request.";
        hint = "Review the active policy and filter chain, then adjust the rule or the request.";
      },
    )
    ∷ (
      negsuc 31999,
      record {
        id = "E4400";
        reason = "No Session";
        cause = "The request referenced a session that is missing or has expired.";
        hint = "Reinitialize to obtain a session before sending session-scoped requests.";
      },
    )
    ∷ (
      negsuc 32003,
      record {
        id = "E4260";
        reason = "Unsupported Protocol Version";
        cause = "The declared protocol version is not in the proxy's supported set.";
        hint = "Negotiate one of the supported versions named in the error data.";
      },
    )
    ∷ (
      negsuc 32004,
      record {
        id = "E4006";
        reason = "Header Mismatch";
        cause = "A transport routing header disagrees with the request body.";
        hint = "Make Mcp-Method and Mcp-Name agree with the body, or omit them.";
      },
    )
    ∷ (
      negsuc 32602,
      record {
        id = "E5000";
        reason = "Internal Error";
        cause = "The proxy or a local handler failed while processing the request.";
        hint = "Retry; if it persists, check the server logs and report the error id.";
      },
    )
    ∷ (
      negsuc 32002,
      record {
        id = "E5030";
        reason = "Server Not Available";
        cause = "The target backend is unavailable or its circuit breaker is open.";
        hint = "Wait for the backend to recover; the proxy resumes once it is healthy.";
      },
    )
    ∷ []

-- what the registry says, or the empty text
abbrev pub told : (Description → String) → Option Description → String
told f none = ""
told f (some d) = f d

unfoldable pub error_id : ℤ → String
error_id code = told (λ d. d.id) (get registry code)

unfoldable pub reason_of : ℤ → String
reason_of code = told (λ d. d.reason) (get registry code)

unfoldable pub cause_of : ℤ → String
cause_of code = told (λ d. d.cause) (get registry code)

unfoldable pub hint_of : ℤ → String
hint_of code = told (λ d. d.hint) (get registry code)

abbrev pub detail_entry : Option String → Message
detail_entry none = []
detail_entry (some detail) = ("detail", str detail) ∷ []

unfoldable pub error_object : ℤ → Option String → Message
error_object code detail =
    ("code", num code)
    ∷ ("message", str (reason_of code))
    ∷ ("data", dict (("errorId", str (error_id code)) ∷ detail_entry detail))
    ∷ []

-- `lower` is `str.lower`
unfoldable pub docs_url : (String → String) → ℤ → String
docs_url lower code =
    if error_id code == "" then "" else append "ERRORS.md#" (lower (error_id code))

unfoldable pub describe : (String → String) → ℤ → Message
describe lower code =
    ("code", num code)
    ∷ ("errorId", str (error_id code))
    ∷ ("reason", str (reason_of code))
    ∷ ("cause", str (cause_of code))
    ∷ ("hint", str (hint_of code))
    ∷ ("docsUrl", str (docs_url lower code))
    ∷ []

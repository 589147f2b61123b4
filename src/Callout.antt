-- ===== src/Callout.antt =====
-- yamp/callout.py: a scan by an out-of-process service, and the cache of its verdicts.
pub mod Scans
pub mod Tests
use python_yamp.Prelude.{
  ℕ, zero, suc, ◌+◌, ◌-◌, ◌*◌, ◌≤◌, ◌<◌, String, ◌≡◌, refl, sym, ap, ◌∙◌, subst, ◌≢◌, ◌↔◌, ◌⊎◌, inl,
  inr, Bool, true, false, not, ◌&&◌, ◌||◌, Option, none, some, List, [], ◌∷◌, ◌++◌, map, arith,
  eq_iff, eq_refl, ltb, leb, nat_beq, if◌then◌else◌, is_some, Bool-cases, Option-cases,
  some_injective, length, all, any, take, keep, length-append, All, All-append, Eq, ◌==◌, beq_refl,
  elem, int_beq_iff, char_beq_iff, char_eq, nat_eq, string_eq, option_eq, pair_eq, ℤ, pos, negsuc,
  pos_part, neg_part, ◌+ℤ◌, ◌≤ℤ◌, ltb_ℤ, leb_ℤ, int_eq,
}
use python_yamp.Prelude.Dict.{
  Dict, get, has, insert, remove, update, get_or, get-insert, get-remove, get-insert_self, keys,
  values, dict_laws,
}
use python_yamp.Json.{
  Value, null, bool, num, str, arr, obj, Items, nil, cons, Fields, end, field, Message, entries,
  of_entries, items, of_items, entries-of_entries, items-of_items, dict, list, get_value,
  dict_or_empty, as_str, as_dict,
}
use python_yamp.Filters.{fail_closed}

abbrev pub Bytes : Type 0
Bytes = List ℕ

-- What the client takes from the standard library: base64 (`b64decode` with `validate=True`, `none`
-- where it raises), `bytes.hex` and `bytes.fromhex` (`none` where it raises), UTF-8 (`encode`, `none`
-- where it raises, and `decode` with `errors="replace"`), SHA-256 as hexadecimal digits, and
-- `json.loads` of a received payload, `none` where it raises `ValueError`.
pub record Codec : Type 0 where
  pub b64encode : Bytes → String
  pub b64decode : String → Option Bytes
  pub hex : Bytes → String
  pub unhex : String → Option Bytes
  pub utf8_encode : String → Option Bytes
  pub utf8_decode : Bytes → String
  pub sha256 : Bytes → String
  pub decode : String → Option Value

-- how a send and the receive after it end
pub data Reply : Type 0 where
  timed_out broken gone : Reply
  payload : String → Reply

pub record CalloutClient : Type 0 where
  pub failure_policy : String
  pub max_bytes : ℕ
  pub preview_bytes : ℕ

abbrev pub valid_kinds : List String
valid_kinds = "allow" ∷ "deny" ∷ "mutate" ∷ "annotate" ∷ "quarantine" ∷ "continue" ∷ []

unfoldable pub content_digest : Codec → Bytes → String
content_digest codec content = codec.sha256 content

unfoldable pub callout_request : Codec → Message → String → Bytes → Bool → Message
callout_request codec context phase content ieof =
    ("callout", str "1")
    ∷ ("phase", str phase)
    ∷ ("context", dict context)
    ∷ ("ieof", bool ieof)
    ∷ ("content", str (codec.b64encode content))
    ∷ []

unfoldable pub exceeds_budget : ℕ → ℕ → Bool
exceeds_budget size max_bytes = ltb 0 max_bytes && ltb max_bytes size

-- `resolve_failure`, as the kind of a verdict
unfoldable pub resolved_kind : String → String
resolved_kind policy = if policy == fail_closed then "deny" else "allow"

unfoldable pub failed : String → String → Message
failed policy reason = ("kind", str (resolved_kind policy)) ∷ ("reason", str reason) ∷ []

abbrev pub hex_value : Codec → Option Bytes → Value
hex_value codec none = null
hex_value codec (some bytes) = str (codec.hex bytes)

unfoldable pub decode_hex : Codec → Value → Value
decode_hex codec (str raw) = hex_value codec (codec.b64decode raw)
decode_hex codec _ = null

abbrev pub entry_if_present : Message → String → Message
entry_if_present m k = elim (get m k) [ none ↦ [] | some v ↦ (k, v) ∷ [] ]

-- the verdict for a kind of the closed set
unfoldable pub verdict_fields : Codec → String → Message → Message
verdict_fields codec kind response =
    if kind == "deny" || kind == "quarantine"
    then ("kind", str kind) ∷ ("reason", get_or response "reason" (str "")) ∷ []
    else if kind == "mutate"
    then ("kind", str kind)
      ∷ ("bytes", decode_hex codec (get_value response "content"))
      ∷ entry_if_present response "provenance"
    else if kind == "annotate"
    then ("kind", str kind) ∷ ("provenance", get_or response "provenance" (dict [])) ∷ []
    else ("kind", str kind) ∷ []

unfoldable pub verdict_for : Codec → String → Message → Value → Option Message
verdict_for codec policy response (str kind) = some (
    if elem kind valid_kinds
    then verdict_fields codec kind response
    else failed policy "malformed callout response")
verdict_for codec policy response (arr kinds) = none
verdict_for codec policy response (obj kinds) = none
verdict_for codec policy response _ = some (failed policy "malformed callout response")

-- `parse_verdict`; `none` where it raises, since a list or a dict is not hashable
unfoldable pub parse_verdict : Codec → Value → String → Option Message
parse_verdict codec response policy =
    let fields = dict_or_empty response in
    verdict_for codec policy fields (get_value fields "verdict")

abbrev pub kind_of : Message → Option String
kind_of verdict = as_str (get_value verdict "kind")

abbrev pub is_continue : Message → Bool
is_continue verdict = kind_of verdict == some "continue"

abbrev pub VerdictCache : Type 0
VerdictCache = Dict String Message

-- the cache that `scan` may be given, read and written
abbrev pub cached : Option VerdictCache → String → Option Message
cached none digest = none
cached (some m) digest = get m digest

unfoldable pub stored : Option VerdictCache → String → Message → Option VerdictCache
stored none digest verdict = none
stored (some m) digest verdict =
    if is_continue verdict then some m else some (insert m digest verdict)

abbrev pub parsed : Codec → String → Option Value → Option Message
parsed codec policy none = some (failed policy "callout decode error")
parsed codec policy (some response) = parse_verdict codec response policy

-- what `_call` makes of a reply
unfoldable pub judged : Codec → String → Reply → Option Message
judged codec policy timed_out = some (failed policy "callout deadline exceeded")
judged codec policy broken = some (failed policy "callout transport error")
judged codec policy gone = some (failed policy "callout closed")
judged codec policy (payload raw) = parsed codec policy (codec.decode raw)

-- A verdict, or `none` where an exception leaves the scan; the service's state; the cache.
pub record Scanned (T : Type 0) : Type 0 where
  pub verdict : Option Message
  pub service : T
  pub cache : Option VerdictCache

abbrev pub preview_size : CalloutClient → Bytes → ℕ
preview_size client content =
    let size = length content in
    let wanted = if ltb 0 client.preview_bytes then client.preview_bytes else size in
    if ltb wanted size then wanted else size

-- The service, the transport and the deadline are one function on a state of theirs.
module _ {T : Type 0} (codec : Codec) (ask : T → Message → Reply × T) (client : CalloutClient) where
  unfoldable pub call : Message → String → Bytes → Bool → T → Option Message × T
  call context phase content ieof t =
      let answer = ask t (callout_request codec context phase content ieof) in
      (judged codec client.failure_policy answer.0, answer.1)

  unfoldable pub exchange : Message → Bytes → T → Option Message × T
  exchange context content t =
      let n = preview_size client content in
      call context "preview" (take n content) (leb (length content) n) t

  -- after the preview's verdict: the body call where it was to continue
  unfoldable pub escalate : Message → Bytes → Option Message × T → Option Message × T
  escalate context content (none, t) = (none, t)
  escalate context content (some verdict, t) =
      let body = call context "body" content true t in
      if is_continue verdict then body else (some verdict, t)

  abbrev pub kept : Option VerdictCache → String → Option Message → Option VerdictCache
  kept cache digest none = cache
  kept cache digest (some verdict) = stored cache digest verdict

  abbrev pub asked : Message → Bytes → Option VerdictCache → T → Scanned T
  asked context content cache t =
      let r = escalate context content (exchange context content t) in
      record { verdict = r.0; service = r.1; cache = kept cache (content_digest codec content) r.0 }

  abbrev pub unasked : Message → Option VerdictCache → T → Scanned T
  unasked verdict cache t = record { verdict = some verdict; service = t; cache = cache }

  unfoldable pub scan : Message → Bytes → Option VerdictCache → T → Scanned T
  scan context content cache t =
      let fresh = asked context content cache t in
      if exceeds_budget (length content) client.max_bytes
      then unasked (failed client.failure_policy "payload exceeds byte budget") cache t
      else elim (cached cache (content_digest codec content)) [
        | none ↦ fresh
        | some hit ↦ unasked hit cache t
      ]

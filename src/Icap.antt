-- ===== src/Icap.antt =====
-- yamp/icap.py: the ICAP bridge, both halves.
mod Tests
pub mod Bridge
pub mod Outage
use python_yamp.Prelude.{
  ℕ, String, Bool, false, ◌&&◌, ◌||◌, Option, none, some, List, [], ◌∷◌, if◌then◌else◌, ◌==◌,
  char_eq, nat_eq, string_eq, option_eq, pair_eq, pos, int_eq,
}
use python_yamp.Prelude.Dict.{insert, update, get_or}
use python_yamp.Json.{
  Value, null, num, str, obj, Message, entries, dict, get_value, as_str, as_dict,
}
use python_yamp.Filters.{policy_denied, Outcome, forward, block, Context}
use python_yamp.Callout.{Bytes, Codec, Reply, CalloutClient, VerdictCache, Scanned, scan}
use python_yamp.Filters.Interests.{message_context, context_message}
use python_yamp.Content.{Block, falsy, dict_or_none, blocks, set_text, set_bytes}

unfoldable pub icap_mode : String → String
icap_mode direction = if direction == "c2u" then "REQMOD" else "RESPMOD"

unfoldable pub should_deref : String → Bool → Bool
should_deref kind enabled = kind == "resource_link" && enabled

abbrev pub denial : String → Message
denial reason = ("verdict", str "deny") ∷ ("reason", str reason) ∷ []

-- a threat that is named: a text that is not empty
abbrev pub threat_of : Message → Option String
threat_of response = elim (as_str (get_value response "threat")) [
  | none ↦ none
  | some threat ↦ if threat == "" then none else some threat
]

abbrev pub modified_or_allow : Message → Option String → Message
modified_or_allow response none = ("verdict", str "allow") ∷ []
modified_or_allow response (some modified) =
    ("verdict", str "mutate")
    ∷ ("content", str modified)
    ∷ ("provenance", dict (("icap", str "modified") ∷ ("istag", get_value response "istag") ∷ []))
    ∷ []

abbrev pub is_status : Value → ℕ → Bool
is_status (num n) code = n == pos code
is_status _ code = false

unfoldable pub by_status : Message → Value → Message
by_status response status =
    if is_status status 204
    then ("verdict", str "allow") ∷ []
    else if is_status status 200
    then modified_or_allow response (as_str (get_value response "modified"))
    else if is_status status 403
    then denial "ICAP policy blocked"
    else denial "unexpected ICAP status"

abbrev pub translated : Message → Option String → Message
translated response none = by_status response (get_value response "status")
translated response (some threat) = ("verdict", str "quarantine") ∷ ("reason", str threat) ∷ []

unfoldable pub icap_to_callout : Message → Message
icap_to_callout response = translated response (threat_of response)

-- What `_block_payload` gives: the outer `none` where it raises.
unfoldable pub block_payload : Codec → Block → Option (Option Bytes)
block_payload codec b = payload_of b.bytes b.text
  where
    whole : Option Bytes → Option (Option Bytes)
    whole none = none
    whole (some bytes) = some (some bytes)

    text_payload : Value → Option (Option Bytes)
    text_payload null = some none
    text_payload (str text) = whole (codec.utf8_encode text)
    text_payload _ = none

    payload_of : Value → Value → Option (Option Bytes)
    payload_of null text = text_payload text
    payload_of (str digits) text = whole (codec.unhex digits)
    payload_of _ text = none

abbrev pub mutated : Codec → Message → Block → Option Bytes → Option Message
mutated codec message b none = none
mutated codec message b (some bytes) = some (elim b.bytes [
  | null ↦ set_text message b.path (codec.utf8_decode bytes)
  | _ ↦ set_bytes codec message b.path bytes
])

-- `_apply_mutation`; `none` where `bytes.fromhex` raises
unfoldable pub apply_mutation : Codec → Message → Block → String → Option Message
apply_mutation codec message b digits = mutated codec message b (codec.unhex digits)

abbrev pub with_meta : Message → Message → Option Message → Option Message
with_meta provenance holder none = none
with_meta provenance holder (some meta) =
    some (insert holder "_meta" (dict (update meta provenance)))

-- the holder with its `_meta` extended; `none` where it is no dict, or its `_meta` none
abbrev pub annotated : Message → Value → Option Message
annotated provenance (obj fs) =
    with_meta provenance (entries fs) (dict_or_none (get_value (entries fs) "_meta"))
annotated provenance _ = none

abbrev pub held_in : Message → String → Option Message → Option Message
held_in message k none = none
held_in message k (some holder) = some (insert message k (dict holder))

unfoldable pub annotate_message : Message → Message → Option Message
annotate_message message provenance = elim (as_dict (get_value message "result")) [
  | some r ↦ held_in message "result" (annotated provenance (dict r))
  | none ↦ held_in message "params" (annotated provenance (get_or message "params" (dict [])))
]

-- `filters.deny_response`, for the reason that a service gives
abbrev pub deny_value : Value → Value → Message
deny_value id reason =
    ("jsonrpc", str "2.0")
    ∷ ("id", id)
    ∷ ("error", dict (("code", num policy_denied) ∷ ("message", reason) ∷ []))
    ∷ []

pub record Progress (T : Type 0) : Type 0 where
  pub working : Message
  pub provenance : Message
  pub service : T
  pub cache : Option VerdictCache

-- An outcome, or `none` where an exception leaves the scan.
pub record Ended (T : Type 0) : Type 0 where
  pub outcome : Option Outcome
  pub service : T
  pub cache : Option VerdictCache

-- `provenance.update(verdict["provenance"])` where there is one; a value that is no dict counts as
-- raising
abbrev pub noted : Message → Value → Option Message
noted provenance v = if falsy v then some provenance else noted_dict (as_dict v)
  where
    noted_dict : Option Message → Option Message
    noted_dict none = none
    noted_dict (some m) = some (update provenance m)

abbrev pub wants_block : Option String → Bool
wants_block kind = kind == some "deny" || kind == some "quarantine"

-- the working message after a verdict that does not block
unfoldable pub applied : Codec → Message → Block → Message → Option Message
applied codec working b verdict =
    if as_str (get_value verdict "kind") == some "mutate"
    then rewritten (get_value verdict "bytes")
    else some working
  where
    rewritten : Value → Option Message
    rewritten null = some working
    rewritten (str digits) = apply_mutation codec working b digits
    rewritten _ = none

abbrev pub blocked : Message → Message → Outcome
blocked message verdict =
    block (deny_value (get_value message "id") (get_or verdict "reason" (str "")))
      (as_str (get_value verdict "kind") == some "quarantine")

module _ {T : Type 0} (codec : Codec) (ask : T → Message → Reply × T) (client : CalloutClient) where
  abbrev pub raised : T → Option VerdictCache → Ended T
  raised service cache = record { outcome = none; service = service; cache = cache }

  abbrev pub forwarded : Progress T → Option Message → Ended T
  forwarded p none = raised p.service p.cache
  forwarded p (some message) = record {
    outcome = some (forward message);
    service = p.service;
    cache = p.cache;
  }

  unfoldable pub finish_scan : Progress T → Ended T
  finish_scan p = elim p.provenance [
    | [] ↦ forwarded p (some p.working)
    | e ∷ es ↦ forwarded p (annotate_message p.working (e ∷ es))
  ]

  abbrev continued :
      (Progress T → Ended T) → T → Option VerdictCache → Option Message → Option Message → Ended T
  continued later service cache none provenance = raised service cache
  continued later service cache (some working) none = raised service cache
  continued later service cache (some working) (some provenance) =
      later
        (record { working = working; provenance = provenance; service = service; cache = cache })

  -- what the loop makes of one scan
  unfoldable pub take_verdict :
      Message → Block → Progress T → Scanned T → (Progress T → Ended T) → Ended T
  take_verdict message b p s later = go s.verdict
    where
      go : Option Message → Ended T
      go none = raised s.service s.cache
      go (some verdict) =
          if wants_block (as_str (get_value verdict "kind"))
          then record {
            outcome = some (blocked message verdict);
            service = s.service;
            cache = s.cache;
          }
          else continued later s.service s.cache (applied codec p.working b verdict)
              (noted p.provenance (get_value verdict "provenance"))

  unfoldable pub scan_block :
      Message
      → Message
      → Block
      → Option (Option Bytes)
      → Progress T
      → (Progress T → Ended T)
      → Ended T
  scan_block message context b none p later = raised p.service p.cache
  scan_block message context b (some none) p later = later p
  scan_block message context b (some (some content)) p later =
      take_verdict message b p (scan codec ask client context content p.cache p.service) later

  -- the loop of `ContentScanner.scan`
  unfoldable pub scan_blocks : Message → Message → List Block → Progress T → Ended T
  scan_blocks message context [] p = finish_scan p
  scan_blocks message context (b ∷ bs) p =
      scan_block message context b (block_payload codec b) p (scan_blocks message context bs)

  abbrev pub scan_listed :
      Message → Option Context → Option (List Block) → T → Option VerdictCache → Ended T
  scan_listed message none bs service cache = raised service cache
  scan_listed message (some context) none service cache = raised service cache
  scan_listed message (some context) (some bs) service cache =
      scan_blocks message (context_message context) bs
        (record { working = message; provenance = []; service = service; cache = cache })

  -- `ContentScanner.scan`
  unfoldable pub scan_message : Message → String → T → Option VerdictCache → Ended T
  scan_message message direction service cache =
      scan_listed message (message_context codec message direction) (blocks codec message) service
        cache

-- ===== src/Icap/Bridge.antt =====
-- What the two halves of the bridge make of an ICAP response.
use python_yamp.Prelude.{
  String, ◌≡◌, refl, inl, inr, Option, none, some, if◌then◌else◌, is_some, Bool-cases, Option-cases,
  char_eq, nat_eq, string_eq, option_eq, pair_eq, int_eq,
}
use python_yamp.Prelude.Dict.{get}
use python_yamp.Json.{Value, Message, dict, get_value, as_str}
use python_yamp.Callout.{Codec, verdict_fields, verdict_for, parse_verdict, kind_of}
use python_yamp.Icap.{threat_of, is_status, by_status, translated, icap_to_callout}

abbrev pub kind_parsed : Codec → String → Message → Option String
kind_parsed codec policy answer = elim (parse_verdict codec (dict answer) policy) [
  | none ↦ none
  | some verdict ↦ kind_of verdict
]

-- the kind of the verdict that the proxy reads out of the bridge's translation
abbrev pub verdict_kind : Codec → String → Message → Option String
verdict_kind codec policy response = kind_parsed codec policy (icap_to_callout response)

-- the verdict's kind, by the response
abbrev pub expected_kind : Message → String
expected_kind response =
    if is_some (threat_of response)
    then "quarantine"
    else if is_status (get_value response "status") 204
    then "allow"
    else if is_status (get_value response "status") 200
    then if is_some (as_str (get_value response "modified")) then "mutate" else "allow"
    else "deny"

by_status-kind :
    (codec : Codec) (policy : String) (response : Message) (status : Value)
    → kind_parsed codec policy (by_status response status)
      ≡ some (
          if is_status status 204
          then "allow"
          else if is_status status 200
          then if is_some (as_str (get_value response "modified")) then "mutate" else "allow"
          else "deny")
unfolding by_status parse_verdict verdict_for verdict_fields get
by_status-kind codec policy response status = elim (Bool-cases (is_status status 204)) [
  | inl clean ↦ rw clean refl
  | inr other ↦ rw other (elim (Bool-cases (is_status status 200)) [
    | inl ok ↦ rw ok (elim (Option-cases (as_str (get_value response "modified"))) [
      | inl same ↦ rw same refl
      | inr (text, modified) ↦ rw modified refl
    ])
    | inr bad ↦ rw bad (elim (Bool-cases (is_status status 403)) [
      | inl refused ↦ rw refused refl
      | inr unknown ↦ rw unknown refl
    ])
  ])
]

-- Whatever the failure policy, the proxy reads the ICAP response in the bridge's translation as: a quarantine
-- where a threat is named; else an allow for status 204, and for 200 without a modified body; a mutation
-- for 200 with one; and a denial for every other status, or none.
pub icap_verdict :
    (codec : Codec) (policy : String) (response : Message)
    → verdict_kind codec policy response ≡ some (expected_kind response)
unfolding icap_to_callout parse_verdict verdict_for verdict_fields get
icap_verdict codec policy response = go (threat_of response)
  where
    go :
        (threat : Option String)
        → kind_parsed codec policy (translated response threat)
          ≡ some (
              if is_some threat
              then "quarantine"
              else if is_status (get_value response "status") 204
              then "allow"
              else if is_status (get_value response "status") 200
              then if is_some (as_str (get_value response "modified")) then "mutate" else "allow"
              else "deny")
    go none = by_status-kind codec policy response (get_value response "status")
    go (some threat) = refl

-- ===== src/Version.antt =====
-- yamp/version.py: the protocol versions that the proxy serves.
use python_yamp.Prelude.{
  String, Bool, Option, none, some, List, [], ◌∷◌, map, if◌then◌else◌, elem, char_eq, nat_eq,
  string_eq, option_eq, pair_eq, int_eq,
}
use python_yamp.Json.{Value, null, str, Message, list}

abbrev pub supported_versions : List String
supported_versions = "2026-07-28" ∷ "2025-06-18" ∷ []

abbrev pub stateless_version : String
stateless_version = "2026-07-28"

unfoldable pub is_supported : String → Bool
is_supported version = elem version supported_versions

-- the version that a stateless request runs under; `none` is a version that is not served
unfoldable pub negotiate : Option String → String → Option String
negotiate none default_ = some default_
negotiate (some requested) default_ =
    if elem requested supported_versions then some requested else none

abbrev pub or_null : Option String → Value
or_null none = null
or_null (some s) = str s

unfoldable pub unsupported_error_data : Option String → Message
unsupported_error_data requested =
    ("requested", or_null requested) ∷ ("supported", list (map str supported_versions)) ∷ []

-- ===== src/Aggregate/Tests.antt =====
-- A router of two backends that lists one tool.
use python_yamp.Prelude.{
  String, Bool, true, false, Option, none, some, [], ◌∷◌, ◌==◌, char_eq, nat_eq, string_eq,
  option_eq, pair_eq, int_eq,
}
use python_yamp.Json.{null, str, Message, dict, list}
use python_yamp.Requests.{Sent}
use python_yamp.Namespace.{prefix}
use python_yamp.Aggregate.{Host, Query}
use python_yamp.Aggregate.Collect.{Page}

abbrev pub two_backends : Host
two_backends = record {
  backends = record { id = "git"; keywords = [] } ∷ record { id = "web"; keywords = [] } ∷ [];
  single = false;
  resilient = true;
  trace = false;
  cache = none;
  principal = none;
  variants = [];
  strategy = "prefix";
  overrides = [];
  priority = [];
  reverse = [];
  registry = [];
  disclosing = false;
  threshold = 50;
  directives = none;
}

abbrev pub up : String → Bool
up id = id == "git"

abbrev pub one_tool : Sent → Option Message
one_tool s =
    some (("result", dict (("tools", list (dict (("name", str "status") ∷ []) ∷ [])) ∷ [])) ∷ [])

abbrev plain_query : Query
plain_query = record { words = []; patterns = []; filter = []; cursor = null; variant = none }

abbrev one_page : Page
one_page = record {
  tools =
      record { name = prefix "git" "status"; tool = ("name", str (prefix "git" "status")) ∷ [] }
      ∷ [];
  unavailable = "web" ∷ [];
  cursors = [];
  host = two_backends;
  sent = record { backend = "git"; method = "tools/list"; params = [] } ∷ [];
}

-- ===== src/Filters/Tests.antt =====
-- The filter chain with a filter that raises.
use python_yamp.Prelude.{true, none, some, [], ◌∷◌, nat_eq, string_eq, option_eq, pair_eq, int_eq}
use python_yamp.Json.{str}
use python_yamp.Filters.{annotate, Context, Filter}

abbrev quiet_context : Context
quiet_context = record { method = some "tools/call"; direction = "c2u"; tool = none; types = [] }

abbrev broken : Filter
broken = record { failure_policy = "fail_closed"; cares = λ c. true; evaluate = λ hook m. none }

abbrev tagging : Filter
tagging = record {
  failure_policy = "fail_open";
  cares = λ c. true;
  evaluate = λ hook m. some (annotate (("by", str "tag") ∷ []));
}

-- ===== src/Serving/Tests.antt =====
-- One request through the loop.
use python_yamp.Prelude.{
  true, false, none, [], ◌∷◌, char_eq, nat_eq, string_eq, option_eq, pair_eq, pos, int_eq,
}
use python_yamp.Prelude.Dict.{get}
use python_yamp.Json.{num}
use python_yamp.Router.{Router}
use python_yamp.Subscriptions.{no_subscriptions}
use python_yamp.Tasks.{new_store}
use python_yamp.Requests.{State}
use python_yamp.Aggregate.Tests.{two_backends, up, one_tool}
use python_yamp.Calls.Tests.{tiny_libraries, no_filters, status_call}
use python_yamp.Serving.{Proxy, react_request}
use python_yamp.Serving.Answers.{ReactsTo, react_request-ReactsTo}

abbrev idle_router : Router
idle_router = record {
  single = false;
  observed = false;
  cache = none;
  seq = 0;
  server_requests = [];
  pooled = λ v. false;
  token_to_call = λ v. none;
}

abbrev idle_state : State
idle_state = record {
  backends = "git" ∷ "web" ∷ [];
  single = false;
  resilient = true;
  trace = false;
  server_tasks = false;
  subscriptions_enabled = false;
  store = new_store;
  subscriptions = no_subscriptions;
}

abbrev idle_proxy : Proxy
idle_proxy = record {
  router = idle_router;
  state = idle_state;
  host = two_backends;
  settings = no_filters;
  pool_enabled = false;
}

react_request-ReactsTo_example : ReactsTo (num (pos 4)) (
    react_request tiny_libraries up one_tool
      (pos 0)
      (λ m. "00")
      (λ s. none)
      idle_proxy
      status_call
      "tools/call")
unfolding get
react_request-ReactsTo_example =
    react_request-ReactsTo tiny_libraries up one_tool (pos 0) (λ m. "00") (λ s. none) idle_proxy
      status_call "tools/call"

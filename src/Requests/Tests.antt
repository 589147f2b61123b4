-- ===== src/Requests/Tests.antt =====
-- Requests of a client that holds one backend's task and resource.
use python_yamp.Prelude.{
  String, ◌≡◌, refl, Bool, true, false, Option, none, [], ◌∷◌, arith, eq_iff, ◌==◌, nat_eq,
  string_eq, option_eq, pair_eq, int_eq,
}
use python_yamp.Prelude.Dict.{get, insert}
use python_yamp.Prelude.Text.{contains as in_text, strip_prefix}
use python_yamp.Json.{null, str, Message}
use python_yamp.Namespace.{all_id_chars, valid_backend_id, prefix, prefix_uri}
use python_yamp.Subscriptions.{no_subscriptions}
use python_yamp.Tasks.{new_store}
use python_yamp.Requests.{Sent, State, trace_request, route_task}
use python_yamp.Requests.Delivery.{sent_of, Proper, route_task-Proper}
use python_yamp.Requests.Destination.{route_task_reaches}

abbrev two_backends : State
two_backends = record {
  backends = "docs" ∷ "git" ∷ [];
  single = false;
  resilient = true;
  trace = false;
  server_tasks = false;
  subscriptions_enabled = true;
  store = new_store;
  subscriptions = no_subscriptions;
}

abbrev up : String → Bool
up b = b == "git"

abbrev silent : Sent → Option Message
silent s = none

abbrev trace_ids : String × String
trace_ids = ("a", "b")

abbrev task_params : Message
task_params = ("taskId", str (prefix "git" "t9")) ∷ []

route_task-Proper_example :
    Proper up silent trace_ids two_backends null
      (route_task up silent trace_ids two_backends null task_params "tasks/get")
route_task-Proper_example =
    route_task-Proper up silent trace_ids two_backends null task_params "tasks/get"

route_task_reaches_example :
    sent_of (route_task up silent trace_ids two_backends null task_params "tasks/get")
    ≡ record { backend = "git"; method = "tasks/get"; params = ("taskId", str "t9") ∷ [] } ∷ []
unfolding valid_backend_id all_id_chars in_text strip_prefix get insert trace_request
route_task_reaches_example =
    route_task_reaches up silent trace_ids two_backends null task_params (("taskId", str "t9") ∷ [])
      "tasks/get" "git" "t9" refl refl (ground (arith, eq_iff "t9" "")) refl refl refl refl refl

abbrev uri_params : Message
uri_params = ("uri", str (prefix_uri "git" "file:///readme")) ∷ []

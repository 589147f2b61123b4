-- ===== src/Tasks.antt =====
-- yamp/tasks.py: task ids under the backend's identifier, and the server's own task store.
pub mod Routing
pub mod Lifecycle
mod Tests
use Prim.Native.String.{◌++◌ as append}
use python_yamp.Prelude.{
  ℕ, zero, suc, ◌+◌, ◌-◌, ◌*◌, ◌≤◌, ◌<◌, String, ◌≡◌, refl, sym, ap, ◌∙◌, subst, ◌≢◌, ◌↔◌, ◌⊎◌, inl,
  inr, Bool, true, false, not, ◌&&◌, ◌||◌, Option, none, some, List, [], ◌∷◌, ◌++◌, map, arith,
  eq_iff, eq_refl, ltb, leb, nat_beq, if◌then◌else◌, is_some, Bool-cases, Option-cases, length, all,
  any, take, keep, length-append, All, All-append, Eq, ◌==◌, beq_refl, elem, nat_eq, string_eq,
  option_eq, pair_eq, ℤ, pos, negsuc, pos_part, neg_part, ◌+ℤ◌, ◌≤ℤ◌, ltb_ℤ, leb_ℤ, int_eq,
}
use python_yamp.Prelude.Dict.{
  Dict, get, has, insert, remove, update, get_or, get-insert, get-remove, get-insert_self, keys,
  values, dict_laws,
}
use python_yamp.Json.{
  Value, null, bool, num, str, arr, obj, Items, nil, cons, Fields, end, field, Message, entries,
  of_entries, items, of_items, entries-of_entries, dict, list, get_value, dict_or_empty, as_str,
  as_dict,
}
use python_yamp.Prelude.Text.{show_ℕ}
use python_yamp.Namespace.{prefix, split}

abbrev pub tasks_methods : List String
tasks_methods = "tasks/get" ∷ "tasks/update" ∷ "tasks/cancel" ∷ "tasks/stream" ∷ []

abbrev pub task_event_method : String
task_event_method = "notifications/tasks/event"

abbrev pub result_type_task : String
result_type_task = "task"

abbrev pub task_meta_key : String
task_meta_key = "io.modelcontextprotocol/task"

abbrev is_task_type : Value → Bool
is_task_type (str s) = s == result_type_task
is_task_type _ = false

unfoldable pub is_task_result : Value → Bool
is_task_result (obj fs) = is_task_type (get_value (entries fs) "resultType")
is_task_result _ = false

abbrev carries : String → Value → Bool
carries k (obj fs) = has (entries fs) k
carries k _ = false

unfoldable pub is_task_augmented : Message → Bool
is_task_augmented params = carries task_meta_key (get_value params "_meta")

unfoldable pub new_task_id : ℕ → String
new_task_id seq = append "task-" (show_ℕ seq)

-- the statuses, with what a record of the store holds beside its status
pub data TaskRecord : Type 0 where
  working : TaskRecord
  completed : Value → TaskRecord
  cancelled : TaskRecord
  failed : Value → TaskRecord

abbrev pub status_of : TaskRecord → String
status_of working = "working"
status_of (completed v) = "completed"
status_of cancelled = "cancelled"
status_of (failed e) = "failed"

-- record.get("result"), record.get("error")
abbrev pub result_of : TaskRecord → Value
result_of (completed v) = v
result_of _ = null

abbrev pub error_of : TaskRecord → Value
error_of (failed e) = e
error_of _ = null

-- an entry for a value that is not None
abbrev pub unless_null : String → Value → Message
unless_null k null = []
unless_null k v = (k, v) ∷ []

unfoldable pub task_handle : String → String → Value → Value → Message
task_handle task_id status result error =
    ("resultType", str result_type_task)
    ∷ ("taskId", str task_id)
    ∷ ("status", str status)
    ∷ (unless_null "result" result ++ unless_null "error" error)

-- m[k] = prefix(backend_id, m[k]) where m[k] is a text
abbrev pub prefix_at : String → String → Message → Value → Message
prefix_at backend_id k m (str s) = insert m k (str (prefix backend_id s))
prefix_at backend_id k m _ = m

abbrev pub prefix_task : String → Message → Value → Message
prefix_task backend_id out (obj task) = elim (get_value (entries task) "taskId") [
  | str s ↦ insert out "task" (dict (insert (entries task) "taskId" (str (prefix backend_id s))))
  | _ ↦ out
]
prefix_task backend_id out _ = out

unfoldable pub namespace_task_id : Message → String → Message
namespace_task_id result backend_id =
    let out = prefix_at backend_id "taskId" result (get_value result "taskId") in
    prefix_task backend_id out (get_value out "task")

unfoldable pub resolve_task : String → Option (String × String)
resolve_task = split

-- m["params"] with its text under `k` prefixed; any other message is returned unchanged
abbrev pub prefix_param : String → (String → String → String) → String → Message → Value → Message
prefix_param k pre backend_id message (obj params) = elim (get_value (entries params) k) [
  | str s ↦ insert message "params" (dict (insert (entries params) k (str (pre backend_id s))))
  | _ ↦ message
]
prefix_param k pre backend_id message _ = message

unfoldable pub namespace_event : Message → String → Message
namespace_event message backend_id =
    prefix_param "taskId" prefix backend_id message (get_value message "params")

pub record ServerTasks : Type 0 where
  pub tasks : Dict String TaskRecord
  pub seq : ℕ

abbrev pub new_store : ServerTasks
new_store = record { tasks = []; seq = 0 }

unfoldable pub create : ServerTasks → ServerTasks × String
create s =
    let seq = suc s.seq in
    let task_id = new_task_id seq in
    (record { tasks = insert s.tasks task_id working; seq = seq }, task_id)

unfoldable pub contains : String → ServerTasks → Bool
contains task_id s = has s.tasks task_id

-- ServerTasks.get
unfoldable pub find_task : String → ServerTasks → Option TaskRecord
find_task task_id s = get s.tasks task_id

abbrev pub is_working : Option TaskRecord → Bool
is_working (some working) = true
is_working _ = false

-- the transition of `complete`, `fail` and `cancel`: from `working` only
abbrev pub finish : String → TaskRecord → ServerTasks → ServerTasks
finish task_id r s =
    if is_working (get s.tasks task_id) then record s { tasks = insert s.tasks task_id r } else s

unfoldable pub complete : String → Value → ServerTasks → ServerTasks
complete task_id result s = finish task_id (completed result) s

unfoldable pub fail : String → Value → ServerTasks → ServerTasks
fail task_id error s = finish task_id (failed error) s

unfoldable pub cancel : String → ServerTasks → ServerTasks × Bool
cancel task_id s = (finish task_id cancelled s, is_working (get s.tasks task_id))

-- ===== src/Tasks/Routing.antt =====
-- Task ids that the client sees lead back to the backend, or stay with the server's own store.
use Prim.Native.String.{◌++◌ as append}
use python_yamp.Prelude.{
  ℕ, String, ◌≡◌, refl, ◌≢◌, true, false, none, some, ◌∙◌, arith, eq_iff, nat_eq, string_eq,
  option_eq, pair_eq, int_eq,
}
use python_yamp.Prelude.Dict.{get, insert, get-insert, get-insert_self}
use python_yamp.Json.{Value, null, str, obj, Message, entries, dict, get_value}
use python_yamp.Prelude.Text.{
  show_ℕ, lacks_low, lacks_low-append, lacks_low-show_ℕ, strip_prefix, contains, partition-eq-none,
}
use python_yamp.Namespace.{delimiter, prefix, split, valid_backend_id}
use python_yamp.Tasks.{new_task_id, prefix_task, namespace_task_id, resolve_task, prefix_at}
use python_yamp.Namespace.Names.{split-prefix, ends_low}

contains-eq-false : (s : String) → lacks_low s ≡ true → contains delimiter s ≡ false
unfolding lacks_low contains strip_prefix
contains-eq-false String.[] h = refl
contains-eq-false (String.◌∷◌ c s) h = ground (arith, contains-eq-false s)

-- An id of the server's own store is no backend's: it is not split.
pub split-new_task_id : (n : ℕ) → split (new_task_id n) ≡ none
unfolding split new_task_id
split-new_task_id n = rw (
  partition-eq-none delimiter (append "task-" (show_ℕ n)) (
      contains-eq-false _
        (lacks_low-append "task-" (show_ℕ n) (unfold lacks_low in refl) (lacks_low-show_ℕ n))),
  split,
)

-- The embedded task leaves the other keys of the result alone.
get-prefix_task :
    (b k : String) (out : Message) (v : Value)
    → k ≢ "task"
    → get (prefix_task b out v) k ≡ get out k
get-prefix_task b k out (obj task) h =
    elim (get_value (entries task) "taskId")
      as (λ t.
        get
          (elim t [
            | str s ↦ insert out "task" (dict (insert (entries task) "taskId" (str (prefix b s))))
            | _ ↦ out
          ])
          k
        ≡ get out k) [ str s ↦ rw get-insert (ground (arith, eq_iff "task" k)) | _ ↦ refl ]
get-prefix_task b k out null h = refl
get-prefix_task b k out _ h = refl

task_id_ne_task : ◌≢◌ {A = String} "taskId" "task"
task_id_ne_task = ground (arith, eq_iff "taskId" "task")

get-namespace_task_id :
    (b original : String) (result : Message)
    → get result "taskId" ≡ some (str original)
    → get (namespace_task_id result b) "taskId" ≡ some (str (prefix b original))
unfolding namespace_task_id
get-namespace_task_id b original result h =
    let out = prefix_at b "taskId" result (get_value result "taskId") in
    get-prefix_task b "taskId" out (get_value out "task") task_id_ne_task
    ∙ rw (h, get_value, prefix_at) (get-insert_self result "taskId" (str (prefix b original)))

-- The task id that a client is shown for a backend's task resolves to that backend and the backend's
-- own id, for a valid identifier that does not end in "_" and a task id that is not empty.
pub resolve_task-namespace_task_id :
    (b original : String) (result : Message)
    → valid_backend_id b ≡ true
    → ends_low b ≡ false
    → original ≢ ""
    → get result "taskId" ≡ some (str original)
    → (shown : String) × (get (namespace_task_id result b) "taskId" ≡ some (str shown))
      × (resolve_task shown ≡ some (b, original))
unfolding resolve_task
resolve_task-namespace_task_id b original result v l full h =
    (prefix b original, get-namespace_task_id b original result h, split-prefix b original v l full)

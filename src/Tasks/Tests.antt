-- ===== src/Tasks/Tests.antt =====
-- The task theorems on short histories and a concrete task.
use python_yamp.Prelude.{
  ◌≡◌, refl, some, List, [], ◌∷◌, nat_eq, string_eq, option_eq, pair_eq, pos, int_eq,
}
use python_yamp.Prelude.Dict.{get, insert}
use python_yamp.Json.{num}
use python_yamp.Tasks.{new_task_id, working, new_store, create, find_task}
use python_yamp.Tasks.Lifecycle.{
  Call, creates, completes, cancels, run, first_outcome, settle, find_task-run,
}
use python_yamp.Prelude.Text.{show_ℕ}

abbrev first_calls : List Call
first_calls = creates ∷ []

abbrev later_calls : List Call
later_calls = completes "task-1" (num (pos 7)) ∷ cancels "task-1" ∷ []

find_task-run_example :
    find_task "task-1" (run later_calls (run first_calls new_store))
    ≡ some (settle working (first_outcome "task-1" later_calls))
unfolding find_task run create get insert new_task_id show_ℕ
find_task-run_example = find_task-run "task-1" first_calls later_calls working refl

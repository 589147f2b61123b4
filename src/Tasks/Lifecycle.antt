-- ===== src/Tasks/Lifecycle.antt =====
-- A task's life in the server's store: fresh ids, and outcomes that are final.
use python_yamp.Prelude.{
  ℕ, suc, ◌<◌, String, ◌≡◌, refl, ◌∙◌, inl, inr, false, ◌&&◌, none, some, List, [], ◌∷◌, arith,
  eq_iff, if◌then◌else◌, Bool-cases, ◌==◌, nat_eq, string_eq, option_eq, pair_eq, int_eq,
}
use python_yamp.Prelude.Dict.{get, get-insert, get-insert_self}
use python_yamp.Json.{Value}
use python_yamp.Prelude.Text.{show_ℕ-injective}
use text.Mathlib.TextLemmas.{append_cancel_left}
use python_yamp.Tasks.{
  TaskRecord, working, completed, cancelled, failed, ServerTasks, new_store, new_task_id, create,
  contains, find_task, is_working, finish, complete, fail, cancel,
}

pub new_task_id-injective : (m n : ℕ) → new_task_id m ≡ new_task_id n → m ≡ n
unfolding new_task_id
new_task_id-injective m n h = show_ℕ-injective m n (append_cancel_left "task-" _ _ h)

-- the calls that change the store
pub data Call : Type 0 where
  creates : Call
  completes : String → Value → Call
  fails : String → Value → Call
  cancels : String → Call

abbrev pub apply : Call → ServerTasks → ServerTasks
apply creates s = (create s).0
apply (completes id v) s = complete id v s
apply (fails id e) s = fail id e s
apply (cancels id) s = (cancel id s).0

unfoldable pub run : List Call → ServerTasks → ServerTasks
run [] s = s
run (c ∷ cs) s = run cs (apply c s)

-- No id that is still to be given out is in the store.
pub record IsFresh (s : ServerTasks) : Type 0 where
  pub unused : (n : ℕ) → s.seq < n → get s.tasks (new_task_id n) ≡ none

new_store-IsFresh : IsFresh new_store
new_store-IsFresh = record { unused = λ n h. unfold get in refl }

new_task_id-ne : (m n : ℕ) → m < n → (new_task_id m == new_task_id n) ≡ false
new_task_id-ne m n h = elim (Bool-cases (new_task_id m == new_task_id n)) [
  | inl same ↦ absurd (omega (arith, new_task_id-injective m n ((eq_iff _ _).0 same)))
  | inr other ↦ other
]

get-finish :
    (id k : String) (r : TaskRecord) (s : ServerTasks)
    → get (finish id r s).tasks k
      ≡ (if id == k && is_working (get s.tasks id) then some r else get s.tasks k)
get-finish id k r s = elim (Bool-cases (is_working (get s.tasks id))) [
  | inl w ↦ rw w (rw get-insert (ground arith))
  | inr d ↦ rw d (ground arith)
]

finish-none :
    (id k : String) (r : TaskRecord) (s : ServerTasks)
    → get s.tasks k ≡ none
    → get (finish id r s).tasks k ≡ none
finish-none id k r s h = ground (arith, get-finish id k r s, eq_iff id k)

seq-finish : (id : String) (r : TaskRecord) (s : ServerTasks) → (finish id r s).seq ≡ s.seq
seq-finish id r s = ground arith

finish-IsFresh :
    (id : String) (r : TaskRecord) (s : ServerTasks) → IsFresh s → IsFresh (finish id r s)
finish-IsFresh id r s f = record {
  unused =
      λ n h. finish-none id (new_task_id n) r s (f.unused n (omega (arith, seq-finish id r s)));
}

apply-IsFresh : (c : Call) (s : ServerTasks) → IsFresh s → IsFresh (apply c s)
unfolding create complete fail cancel
apply-IsFresh creates s f = record {
  unused = λ n h. rw get-insert (rw (new_task_id-ne (suc s.seq) n h) (f.unused n (omega arith)));
}
apply-IsFresh (completes id v) s f = finish-IsFresh id (completed v) s f
apply-IsFresh (fails id e) s f = finish-IsFresh id (failed e) s f
apply-IsFresh (cancels id) s f = finish-IsFresh id cancelled s f

run-IsFresh : (cs : List Call) (s : ServerTasks) → IsFresh s → IsFresh (run cs s)
unfolding run
run-IsFresh [] s f = f
run-IsFresh (c ∷ cs) s f = run-IsFresh cs (apply c s) (apply-IsFresh c s f)

-- What a call makes of the task `id` while it works.
abbrev pub outcome : String → Call → TaskRecord
outcome id creates = working
outcome id (completes j v) = if j == id then completed v else working
outcome id (fails j v) = if j == id then failed v else working
outcome id (cancels j) = if j == id then cancelled else working

-- The outcome of the first call that ends the task, or `working`.
unfoldable pub first_outcome : String → List Call → TaskRecord
first_outcome id [] = working
first_outcome id (c ∷ cs) =
    let later = first_outcome id cs in
    if is_working (some (outcome id c)) then later else outcome id c

-- A record that is no longer working stays.
abbrev pub settle : TaskRecord → TaskRecord → TaskRecord
settle working o = o
settle r o = r

find-finish :
    (id j : String) (o r : TaskRecord) (s : ServerTasks)
    → get s.tasks id ≡ some r
    → get (finish j o s).tasks id ≡ some (settle r (if j == id then o else working))
find-finish id j o r s h = ground (arith, get-finish j id o s, eq_iff j id)

find-create :
    (id : String) (r : TaskRecord) (s : ServerTasks)
    → IsFresh s
    → get s.tasks id ≡ some r
    → get (create s).0.tasks id ≡ some r
unfolding create
find-create id r s f h =
    rw get-insert
      (ground (arith, f.unused (suc s.seq) (omega arith), eq_iff (new_task_id (suc s.seq)) id))

find-apply :
    (id : String) (c : Call) (s : ServerTasks) (r : TaskRecord)
    → IsFresh s
    → get s.tasks id ≡ some r
    → get (apply c s).tasks id ≡ some (settle r (outcome id c))
unfolding complete fail cancel
find-apply id creates s r f h = find-create id r s f h ∙ ground arith
find-apply id (completes j v) s r f h = find-finish id j (completed v) r s h
find-apply id (fails j v) s r f h = find-finish id j (failed v) r s h
find-apply id (cancels j) s r f h = find-finish id j cancelled r s h

settle_assoc : (r o l : TaskRecord) → settle (settle r o) l ≡ settle r (settle o l)
settle_assoc r o l = ground arith

find-run :
    (id : String) (cs : List Call) (s : ServerTasks) (r : TaskRecord)
    → IsFresh s
    → get s.tasks id ≡ some r
    → get (run cs s).tasks id ≡ some (settle r (first_outcome id cs))
unfolding run first_outcome
find-run id [] s r f h = ground arith
find-run id (c ∷ cs) s r f h =
    find-run id cs (apply c s) (settle r (outcome id c)) (apply-IsFresh c s f)
      (find-apply id c s r f h)
    ∙ ground arith

-- Once a task is in the store, in any history, it stays there: a terminal record is never changed,
-- and a working one becomes what the first call makes of it that completes, fails or cancels it.
pub find_task-run :
    (id : String) (before after : List Call) (r : TaskRecord)
    → find_task id (run before new_store) ≡ some r
    → find_task id (run after (run before new_store)) ≡ some (settle r (first_outcome id after))
unfolding find_task
find_task-run id before after r h =
    find-run id after (run before new_store) r (run-IsFresh before new_store new_store-IsFresh) h

-- In any history, `create` gives an id that the store does not hold, and leaves it working there.
pub create_fresh :
    (before : List Call)
    → (contains (create (run before new_store)).1 (run before new_store) ≡ false)
      × (find_task (create (run before new_store)).1 (create (run before new_store)).0
          ≡ some working)
unfolding create contains find_task
create_fresh before =
    let s = run before new_store in
    let f : IsFresh s = run-IsFresh before new_store new_store-IsFresh in
    (
      rw (f.unused (suc s.seq) (omega arith)),
      get-insert_self s.tasks (new_task_id (suc s.seq)) working,
    )

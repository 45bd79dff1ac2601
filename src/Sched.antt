-- ===== src/Sched.antt =====
-- mckrnl/scheduler/scheduler.c: how the timer's interrupt picks a task. The table of tasks is a list;
-- the registers of a task are named by its place in the table.
use goofy_micro_os.Prelude.{
  ℕ, zero, suc, ◌+◌, ◌-◌, Bool, true, false, not, ◌&&◌, ◌||◌, Option, none, some, List, [], ◌∷◌,
  ◌++◌, ltb, ◌==◌, if◌then◌else◌, length, get_elem?, set, take, drop,
}
use goofy_micro_os.Prelude.Int.{ℤ, pos, negsuc, sub_ℕ}
pub mod Pick
mod Tests

-- What the scheduler reads and writes of `task_t`.
pub record Task : Type 0 where
  pub active : Bool
  pub pid : ℕ
  pub pin : Bool
  pub term : ℕ
  pub wait_time : ℤ

pub record Scheduler : Type 0 where
  pub tasks : List Task
  pub current_task : ℕ
  pub last_time_ms : ℕ
  pub is_scheduler_running : Bool

-- `wait_time > 0`
abbrev pub waits : ℤ → Bool
waits (pos zero) = false
waits (pos (suc n)) = true
waits (negsuc n) = false

-- `wait_time -= diff_ms`, of a wait that is positive
abbrev pub minus : ℤ → ℕ → ℤ
minus (pos n) diff_ms = sub_ℕ n diff_ms
minus (negsuc n) diff_ms = negsuc (n + diff_ms)

-- A task after the first test of the loop's body.
abbrev pub waited : ℕ → Bool → Task → Task
waited diff_ms ignore_wait_time t =
    if not ignore_wait_time && (t.active && waits t.wait_time)
    then record t { wait_time = minus t.wait_time diff_ms }
    else t

-- Whether that test continues the loop.
abbrev pub still_waits : Bool → Task → Bool
still_waits ignore_wait_time t = not ignore_wait_time && (t.active && waits t.wait_time)

-- The loop of `switch_to_next_task` from the place `i` on: the tasks from there, and the place found.
unfoldable pub scan_tasks : ℕ → Bool → ℕ → List Task → List Task × Option ℕ
scan_tasks diff_ms ignore_wait_time i [] = ([], none)
scan_tasks diff_ms ignore_wait_time i (t ∷ ts) =
    let t' = waited diff_ms ignore_wait_time t in
    let (ts', found) = scan_tasks diff_ms ignore_wait_time (suc i) ts in
    if not (still_waits ignore_wait_time t') && t'.active
    then (t' ∷ ts, some i)
    else (t' ∷ ts', found)

-- `switch_to_next_task`; `none` is its null pointer.
unfoldable pub switch_to_next_task : ℕ → ℕ → Bool → Scheduler → Scheduler × Option ℕ
unfolding scan_tasks
switch_to_next_task starting_from diff_ms ignore_wait_time st =
    let (ts, found) =
      scan_tasks diff_ms ignore_wait_time starting_from (drop starting_from st.tasks) in
    let st' = record st { tasks = take starting_from st.tasks ++ ts } in
    elim found [ none ↦ (st', none) | some i ↦ (record st' { current_task = i }, some i) ]

-- What the interrupt returns to: the registers it came with, or those of a task.
pub data Resumed : Type 0 where
  registers : Resumed
  task : ℕ → Resumed

-- The searches of `schedule`, each where the one before it found nothing; `none` is `abortf`.
unfoldable pub search_tasks : ℕ → Scheduler → Option (Resumed × Scheduler)
unfolding switch_to_next_task
search_tasks diff_ms st =
    let (st1, found1) = switch_to_next_task (st.current_task + 1) diff_ms false st in
    let (st2, found2) = switch_to_next_task 0 diff_ms false st1 in
    let (st3, found3) = switch_to_next_task 0 diff_ms true st2 in
    elim found1 [
      | some i ↦ some (task i, st1)
      | none ↦ elim found2 [
        | some i ↦ some (task i, st2)
        | none ↦ elim found3 [ some i ↦ some (task i, st3) | none ↦ none ]
      ]
    ]

-- The test for a task that is pinned to the terminal shown.
abbrev pub pinned : ℕ → Option Task → Bool
pinned current_term none = false
pinned current_term (some t) = t.pin && t.term == current_term

-- `schedule`, on the core `on_bsp` tells of, at the timer's `time_ms`, which does not go back.
unfoldable pub schedule : Bool → ℕ → ℕ → Scheduler → Option (Resumed × Scheduler)
unfolding search_tasks
schedule on_bsp current_term time_ms st =
    if not st.is_scheduler_running
    then some (registers, st)
    else if not on_bsp
    then some (registers, st)
    else if pinned current_term (get_elem? st.tasks st.current_task)
    then some (task st.current_task, st)
    else search_tasks (time_ms - st.last_time_ms) (record st { last_time_ms = time_ms })

-- `get_task_by_pid`; `i` is the place of the list's first task.
unfoldable pub get_task_from : ℕ → ℕ → List Task → Option ℕ
get_task_from pid i [] = none
get_task_from pid i (t ∷ ts) =
    let rest = get_task_from pid (suc i) ts in if t.active && t.pid == pid then some i else rest

unfoldable pub get_task_by_pid : ℕ → Scheduler → Option ℕ
unfolding get_task_from
get_task_by_pid pid st = get_task_from pid 0 st.tasks

unfoldable pub get_ammount_running_tasks : List Task → ℕ
get_ammount_running_tasks [] = 0
get_ammount_running_tasks (t ∷ ts) = (if t.active then 1 else 0) + get_ammount_running_tasks ts

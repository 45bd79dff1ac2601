-- ===== src/Sched/Pick.antt =====
-- `schedule` of mckrnl/scheduler/scheduler.c resumes a task when there is one to resume.
use goofy_micro_os.Prelude.{
  ℕ, zero, suc, ◌+◌, ◌-◌, ◌<◌, ◌≡◌, refl, sym, ◌∙◌, ap, inl, inr, Bool, true, false, not, ◌&&◌,
  Option, none, some, List, [], ◌∷◌, ◌++◌, get_elem?, take, drop, arith, Bool-cases, Option-cases,
  is_some,
}
use goofy_micro_os.Prelude.Ensures.{Returns, just, Ensures-if}
use goofy_micro_os.Sched.{
  Task, Scheduler, waits, waited, still_waits, scan_tasks, switch_to_next_task, Resumed, task,
  search_tasks, pinned, schedule, get_ammount_running_tasks,
}

-- The task at a place is active.
abbrev pub active_at : List Task → ℕ → Bool
active_at [] i = false
active_at (t ∷ ts) zero = t.active
active_at (t ∷ ts) (suc i) = active_at ts i

waited-active : (d : ℕ) (ignore : Bool) (t : Task) → (waited d ignore t).active ≡ t.active
waited-active d ignore t = elim (Bool-cases (not ignore && (t.active && waits t.wait_time))) [
  | inl e ↦ rw e refl
  | inr e ↦ rw e refl
]

-- A search finds an active task, so many places behind its start.
scan_tasks-found :
    (d : ℕ) (ignore : Bool) (i j : ℕ) (ts : List Task)
    → (scan_tasks d ignore i ts).1 ≡ some j
    → (k : ℕ) × (j ≡ i + k) × (active_at ts k ≡ true)
unfolding scan_tasks
scan_tasks-found d ignore i j [] h = absurd (cc h)
scan_tasks-found d ignore i j (t ∷ ts) h =
    elim (Bool-cases (not (still_waits ignore (waited d ignore t)) && (waited d ignore t).active)) [
      | inl e ↦
          let same : i ≡ j = ground (arith, h, e) in
          (0, omega (arith, same), ground (arith, e, waited-active d ignore t))
      | inr e ↦
          let (k, at_k, runs) = scan_tasks-found d ignore (suc i) j ts (ground (arith, h, e)) in
          (suc k, omega (arith, at_k), runs)
    ]

-- With the waits ignored, it finds one where there is one.
scan_tasks-ignoring :
    (d i : ℕ) (ts : List Task)
    → 0 < get_ammount_running_tasks ts
    → is_some (scan_tasks d true i ts).1 ≡ true
unfolding scan_tasks get_ammount_running_tasks
scan_tasks-ignoring d i [] h = absurd (omega (arith, h))
scan_tasks-ignoring d i (t ∷ ts) h = elim (Bool-cases t.active) [
  | inl e ↦ ground (arith, e)
  | inr e ↦ ground (arith, e, scan_tasks-ignoring d (suc i) ts (ground (arith, e, h)))
]

-- A search keeps which tasks are active.
scan_tasks-active :
    (d : ℕ) (ignore : Bool) (i k : ℕ) (ts : List Task)
    → active_at (scan_tasks d ignore i ts).0 k ≡ active_at ts k
unfolding scan_tasks
scan_tasks-active d ignore i k [] = refl
scan_tasks-active d ignore i zero (t ∷ ts) = ground arith
scan_tasks-active d ignore i (suc k) (t ∷ ts) =
    ground (arith, scan_tasks-active d ignore (suc i) k ts)

active_at-append :
    (start k : ℕ) (ts us : List Task)
    → ((q : ℕ) → active_at us q ≡ active_at (drop start ts) q)
    → active_at (take start ts ++ us) k ≡ active_at ts k
active_at-append zero k ts us h = h k
active_at-append (suc start) k [] us h = h k
active_at-append (suc start) zero (t ∷ ts) us h = refl
active_at-append (suc start) (suc k) (t ∷ ts) us h = active_at-append start k ts us h

active_at-drop :
    (start k : ℕ) (ts : List Task) → active_at (drop start ts) k ≡ active_at ts (start + k)
active_at-drop zero k ts = ground arith
active_at-drop (suc start) k [] = refl
active_at-drop (suc start) k (t ∷ ts) = ground (arith, active_at-drop start k ts)

-- What a search of the table does: which tasks are active stays, and what it finds is active and is
-- the current task.
record Searched (st : Scheduler) (r : Scheduler × Option ℕ) : Type 0 where
  same : (k : ℕ) → active_at r.0.tasks k ≡ active_at st.tasks k
  found : (j : ℕ) → r.1 ≡ some j → (active_at st.tasks j ≡ true) × (r.0.current_task ≡ j)

switch_to_next_task-Searched :
    (start d : ℕ) (ignore : Bool) (st : Scheduler)
    → Searched st (switch_to_next_task start d ignore st)
unfolding switch_to_next_task
switch_to_next_task-Searched start d ignore st =
    by_result (scan_tasks d ignore start (drop start st.tasks)).1 refl
  where
    same_tasks :
        (k : ℕ)
        → active_at (take start st.tasks ++ (scan_tasks d ignore start (drop start st.tasks)).0) k
          ≡ active_at st.tasks k
    same_tasks k =
        active_at-append start k st.tasks _
          λ q. scan_tasks-active d ignore start q (drop start st.tasks)

    runs :
        (j : ℕ)
        → (scan_tasks d ignore start (drop start st.tasks)).1 ≡ some j
        → active_at st.tasks j ≡ true
    runs j e =
        let (k, at_k, a) = scan_tasks-found d ignore start j (drop start st.tasks) e in
        rw (at_k, ← active_at-drop start k st.tasks) a

    by_result :
        (o : Option ℕ)
        → (scan_tasks d ignore start (drop start st.tasks)).1 ≡ o
        → Searched st (switch_to_next_task start d ignore st)
    by_result none e =
        rw (switch_to_next_task, e) (record { same = same_tasks; found = λ j h. absurd (cc h) })
    by_result (some i) e =
        rw (switch_to_next_task, e)
          (record { same = same_tasks; found = λ j h. (runs j (e ∙ h), cc h) })

-- What `schedule` resumes when it searches: an active task, which becomes the current one; which
-- tasks are active stays.
pub record Resumes (ts : List Task) (r : Resumed × Scheduler) : Type 0 where
  pub resumed : r.0 ≡ task r.1.current_task
  pub runs : active_at ts r.1.current_task ≡ true
  pub same : (k : ℕ) → active_at r.1.tasks k ≡ active_at ts k

module _ (ts : List Task) (st' : Scheduler) (d start : ℕ) (ignore : Bool)
    (before : (k : ℕ) → active_at st'.tasks k ≡ active_at ts k) where
  search-Resumes :
      (j : ℕ)
      → (switch_to_next_task start d ignore st').1 ≡ some j
      → Resumes ts (task j, (switch_to_next_task start d ignore st').0)
  search-Resumes j e =
      let s = switch_to_next_task-Searched start d ignore st' in
      record {
        resumed = ap task (sym (s.found j e).1);
        runs = rw ((s.found j e).1, ← before j) (s.found j e).0;
        same = λ k. s.same k ∙ before k;
      }

  search-same :
      (k : ℕ) → active_at (switch_to_next_task start d ignore st').0.tasks k ≡ active_at ts k
  search-same k = (switch_to_next_task-Searched start d ignore st').same k ∙ before k

-- Some task is active.
abbrev pub HasTask : List Task → Type 0
HasTask ts = (k : ℕ) × (active_at ts k ≡ true)

running-HasTask : (ts : List Task) → HasTask ts → 0 < get_ammount_running_tasks ts
unfolding get_ammount_running_tasks
running-HasTask [] (k, h) = absurd (cc h)
running-HasTask (t ∷ ts) (zero, h) = ground (arith, h)
running-HasTask (t ∷ ts) (suc k, h) = omega (arith, running-HasTask ts (k, h))

ignoring-finds :
    (d : ℕ) (st : Scheduler) → HasTask st.tasks → is_some (switch_to_next_task 0 d true st).1 ≡ true
unfolding switch_to_next_task
ignoring-finds d st h = elim (Option-cases (scan_tasks d true 0 st.tasks).1) [
  | inl e ↦
      absurd (ground (arith, scan_tasks-ignoring d 0 st.tasks (running-HasTask st.tasks h), e))
  | inr (j, e) ↦ rw (switch_to_next_task, e) refl
]

search_tasks-Resumes :
    (d : ℕ) (st : Scheduler) → HasTask st.tasks → Returns (Resumes st.tasks) (search_tasks d st)
unfolding search_tasks
search_tasks-Resumes d st (q, runs) = elim (Option-cases r1.1) [
  | inr (j, e) ↦
      rw (search_tasks, e)
        (just (search-Resumes st.tasks st d (st.current_task + 1) false (λ k. refl) j e))
  | inl e ↦ elim (Option-cases r2.1) [
    | inr (j, e2) ↦
        rw (search_tasks, e, e2) (just (search-Resumes st.tasks r1.0 d 0 false same1 j e2))
    | inl e2 ↦ elim (Option-cases r3.1) [
      | inr (j, e3) ↦
          rw (search_tasks, e, e2, e3) (just (search-Resumes st.tasks r2.0 d 0 true same2 j e3))
      | inl e3 ↦ absurd (ground (arith, ignoring-finds d r2.0 (q, same2 q ∙ runs), e3))
    ]
  ]
]
  where
    r1 : Scheduler × Option ℕ
    r1 = switch_to_next_task (st.current_task + 1) d false st

    r2 : Scheduler × Option ℕ
    r2 = switch_to_next_task 0 d false r1.0

    r3 : Scheduler × Option ℕ
    r3 = switch_to_next_task 0 d true r2.0

    same1 : (k : ℕ) → active_at r1.0.tasks k ≡ active_at st.tasks k
    same1 = search-same st.tasks st d (st.current_task + 1) false λ k. refl

    same2 : (k : ℕ) → active_at r2.0.tasks k ≡ active_at st.tasks k
    same2 = search-same st.tasks r1.0 d 0 false same1

-- On the first core, where the scheduler runs and the current task is not pinned to the terminal
-- shown: if a task is active, `schedule` resumes an active task, never another one, which becomes
-- the current task; and which tasks are active stays.
pub schedule-Resumes :
    (current_term time_ms : ℕ) (st : Scheduler)
    → st.is_scheduler_running ≡ true
    → pinned current_term (get_elem? st.tasks st.current_task) ≡ false
    → HasTask st.tasks
    → Returns (Resumes st.tasks) (schedule true current_term time_ms st)
unfolding schedule
schedule-Resumes current_term time_ms st on free h =
    Ensures-if (not st.is_scheduler_running) (λ e. absurd (ground (arith, on, e)))
      λ _.
        Ensures-if (pinned current_term (get_elem? st.tasks st.current_task))
          (λ e. absurd (cc (free, e)))
          λ _.
            search_tasks-Resumes (time_ms - st.last_time_ms) (record st { last_time_ms = time_ms })
              h

-- ===== src/Sched/Tests.antt =====
-- The theorem on `schedule` of mckrnl/scheduler/scheduler.c at a table of two tasks, and runs of it.
use goofy_micro_os.Prelude.{ℕ, ◌≡◌, refl, true, false, some, [], ◌∷◌}
use goofy_micro_os.Prelude.Int.{pos}
use goofy_micro_os.Prelude.Ensures.{Returns}
use goofy_micro_os.Sched.{Task, Scheduler, task, schedule}
use goofy_micro_os.Sched.Pick.{Resumes, schedule-Resumes}

abbrev runner : ℕ → Task
runner wait = record { active = true; pid = 4; pin = false; term = 1; wait_time = pos wait }

abbrev machine : Scheduler
machine = record {
  tasks = runner 0 ∷ runner 30 ∷ [];
  current_task = 0;
  last_time_ms = 100;
  is_scheduler_running = true;
}

schedule-Resumes_example :
    Returns (Resumes (runner 0 ∷ runner 30 ∷ [])) (schedule true 2 110 machine)
schedule-Resumes_example = schedule-Resumes 2 110 machine refl refl (0, refl)

-- Where every task waits, one behind the current one is charged by two searches in one tick: 20 of
-- its 30 in 10 milliseconds.
charged_twice :
    schedule true 2 110 (record machine { tasks = runner 50 ∷ runner 30 ∷ [] })
    ≡ some (task 0, record machine { tasks = runner 40 ∷ runner 10 ∷ []; last_time_ms = 110 })
unfolding schedule
charged_twice = refl

-- ===== src/Tests/Workers.antt =====
-- One worker that runs two tasks, and a worker that sleeps until a task comes.
use marc_fs.Base.{ℕ, zero, suc, ◌+◌, ◌<◌, ◌≡◌, refl, true, [], ◌∷◌, ◌++◌, arith, length, ◌⊎◌, inr}
use marc_fs.Base.Families.{update}
use marc_fs.ThreadPool.{
  awake, exited, enqueue, next, halt, System, tested, push, stop_pool, test, finish, launched,
  Reach, here, later,
}
use marc_fs.ThreadPool.Running.{exited-all_ran}
use marc_fs.ThreadPool.Rousing.{none_sleeps_on}

abbrev with_task : ℕ → System ℕ → System ℕ
with_task task s = record s {
  pool = (enqueue task s.pool).1;
  to_notify = s.to_notify + 1;
  enqueued = s.enqueued ++ (task ∷ []);
}

abbrev ended : ℕ → System ℕ → System ℕ
ended task s = record s { workers = update s.workers 0 awake; finished = s.finished ++ (task ∷ []) }

abbrev next_turn : System ℕ → System ℕ
next_turn s = tested 0 s (next s.pool)

abbrev two_tasks : System ℕ
two_tasks = with_task 6 (with_task 5 launched)

abbrev two_ran : System ℕ
two_ran = ended 6 (next_turn (ended 5 (next_turn two_tasks)))

abbrev stopped : System ℕ
stopped = record two_ran { pool = halt two_ran.pool; to_notify_all = true }

abbrev all_gone : System ℕ
all_gone = next_turn stopped

abbrev two_tasks-Reach : Reach 1 two_tasks
unfolding enqueue
two_tasks-Reach = later (later here (push 5 refl)) (push 6 refl)

abbrev two_ran-Reach : Reach 1 two_ran
unfolding enqueue next
two_ran-Reach =
    later
      (later
        (later (later two_tasks-Reach (test 0 (omega arith) refl)) (finish 0 5 (omega arith) refl))
        (test 0 (omega arith) refl))
      (finish 0 6 (omega arith) refl)

abbrev all_gone-Reach : Reach 1 all_gone
unfolding enqueue next halt
all_gone-Reach = later (later two_ran-Reach stop_pool) (test 0 (omega arith) refl)

has_gone : (i : ℕ) → i < 1 → all_gone.workers i ≡ exited
unfolding enqueue next halt
has_gone zero lt = refl
has_gone (suc i) lt = absurd (omega arith)

exited-all_ran_example :
    (all_gone.started ≡ all_gone.enqueued)
    × (length all_gone.finished ≡ length all_gone.enqueued)
    × (all_gone.pool.stop ≡ true)
exited-all_ran_example = exited-all_ran 1 all_gone (omega arith) all_gone-Reach has_gone

-- The only worker slept before the task came.
abbrev slept : System ℕ
slept = with_task 5 (next_turn launched)

abbrev slept-Reach : Reach 1 slept
unfolding enqueue next
slept-Reach = later (later here (test 0 (omega arith) refl)) (push 5 refl)

none_sleeps_on_example :
    (slept.to_notify_all ≡ true)
    ⊎ ((0 < slept.to_notify) ⊎ ((j : ℕ) × (j < 1) × (slept.workers j ≡ awake)))
unfolding enqueue next
none_sleeps_on_example = none_sleeps_on 1 0 slept slept-Reach (omega arith) refl (inr (omega arith))

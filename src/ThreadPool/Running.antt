-- ===== src/ThreadPool/Running.antt =====
-- Each task that was enqueued runs, in the order of the calls, before the destructor returns.
use marc_fs.Base.{
  ℕ, ◌+◌, ◌-◌, ◌<◌, ◌≡◌, refl, sym, ap, ◌∙◌, Bool, true, false, List, [], ◌∷◌, ◌++◌, arith, length,
  length-append, ◌⊎◌, inl, inr, ok, ◌==◌, ==_iff, if◌then◌else◌,
}
use marc_fs.Base.Families.{update, total, total-update, total-zero, total_congr}
use mathlib.Core.List.{append-nil, append_assoc}
use marc_fs.ThreadPool.{
  ThreadPool, Worker, awake, asleep, running, exited, pushed, enqueue, next_of, next, halt, roused,
  taken, System, tested, Step, push, notify_one, notify_none, stop_pool, notify_all, test, wake,
  finish, launched, Reach, here, later,
}

module _ {T : Type 0} where
  abbrev pub runs : Worker T → ℕ
  runs (running _) = 1
  runs _ = 0

  -- The tasks in order; the tasks under way; and nothing is left once a worker has gone.
  record IsOrdered (n : ℕ) (s : System T) : Type 0 where
    order : s.started ++ s.pool.tasks ≡ s.enqueued
    under_way : length s.started ≡ length s.finished + total runs n s.workers
    none_left : (i : ℕ) → i < n → s.workers i ≡ exited → (s.pool.stop ≡ true) × (s.pool.tasks ≡ [])

  enqueue-tasks :
      (stop : Bool) (task : T) (p : ThreadPool T)
      → (pushed stop task p).0 ≡ ok tt
      → (stop ≡ false)
        × ((pushed stop task p).1.tasks ≡ p.tasks ++ (task ∷ []))
        × ((pushed stop task p).1.stop ≡ p.stop)
  enqueue-tasks true task p e = absurd (ground (arith, e))
  enqueue-tasks false task p e = (refl, refl, refl)

  next_of-order :
      (tasks : List T) (stop : Bool)
      → taken (next_of tasks stop).0 ++ (next_of tasks stop).1 ≡ tasks
  next_of-order (task ∷ rest) stop = refl
  next_of-order [] true = refl
  next_of-order [] false = refl

  next_of-runs :
      (tasks : List T) (stop : Bool)
      → length (taken (next_of tasks stop).0) ≡ runs (next_of tasks stop).0
  next_of-runs (task ∷ rest) stop = refl
  next_of-runs [] true = refl
  next_of-runs [] false = refl

  next_of-exited :
      (tasks : List T) (stop : Bool)
      → (next_of tasks stop).0 ≡ exited
      → (stop ≡ true) × ((next_of tasks stop).1 ≡ [])
  next_of-exited (task ∷ rest) stop e = cc
  next_of-exited [] true e = (refl, refl)
  next_of-exited [] false e = cc

  next_of-none : (tasks : List T) (stop : Bool) → tasks ≡ [] → (next_of tasks stop).1 ≡ []
  next_of-none (task ∷ rest) stop e = cc
  next_of-none [] true e = refl
  next_of-none [] false e = refl

  -- A worker that goes on where it slept.
  awake-IsOrdered :
      (n j k : ℕ) (s : System T)
      → j < n
      → s.workers j ≡ asleep
      → IsOrdered n s
      → IsOrdered n (record s { workers = update s.workers j awake; to_notify = k })
  awake-IsOrdered n j k s h e o = record {
    order = o.order;
    under_way = omega (arith, o.under_way, total-update runs n s.workers j awake h, ap runs e);
    none_left = λ i lt x. o.none_left i lt (ground (arith, x, ==_iff i j));
  }

  roused-exited : (w : Worker T) → roused w ≡ exited → w ≡ exited
  roused-exited awake e = e
  roused-exited asleep e = cc
  roused-exited (running t) e = e
  roused-exited exited e = e

  runs-roused : (w : Worker T) → runs (roused w) ≡ runs w
  runs-roused awake = refl
  runs-roused asleep = refl
  runs-roused (running t) = refl
  runs-roused exited = refl

  total-roused : (n : ℕ) (f : ℕ → Worker T) → total runs n (λ i. roused (f i)) ≡ total runs n f
  total-roused n f = total_congr runs n (λ i. roused (f i)) f (λ i. runs-roused (f i))

  either_exited :
      (b : Bool) (w v : Worker T) → (if b then w else v) ≡ exited → (w ≡ exited) ⊎ (v ≡ exited)
  either_exited true w v e = inl e
  either_exited false w v e = inr e

  test-IsOrdered :
      (n i : ℕ) (s : System T)
      → i < n
      → s.workers i ≡ awake
      → IsOrdered n s
      → IsOrdered n (tested i s (next s.pool))
  unfolding next
  test-IsOrdered n i s h e o =
      let w = (next_of s.pool.tasks s.pool.stop).0 in
      record {
        order =
            append_assoc s.started (taken w) (next_of s.pool.tasks s.pool.stop).1
            ∙ (ap (λ ts. s.started ++ ts) (next_of-order s.pool.tasks s.pool.stop) ∙ o.order);
        under_way = omega (
          arith,
          o.under_way,
          length-append s.started (taken w),
          next_of-runs s.pool.tasks s.pool.stop,
          total-update runs n s.workers i w h,
          ap runs e,
        );
        none_left = λ j lt x. elim (either_exited (j == i) w (s.workers j) x) [
          | inl new ↦ next_of-exited s.pool.tasks s.pool.stop new
          | inr old ↦ (
            (o.none_left j lt old).0,
            next_of-none s.pool.tasks s.pool.stop (o.none_left j lt old).1,
          )
        ];
      }

  finish-IsOrdered :
      (n i : ℕ) (task : T) (s : System T)
      → i < n
      → s.workers i ≡ running task
      → IsOrdered n s
      → IsOrdered n
          (record s { workers = update s.workers i awake; finished = s.finished ++ (task ∷ []) })
  finish-IsOrdered n i task s h e o = record {
    order = o.order;
    under_way = omega (
      arith,
      o.under_way,
      length-append s.finished (task ∷ []),
      total-update runs n s.workers i awake h,
      ap runs e,
    );
    none_left = λ j lt x. o.none_left j lt (ground (arith, x, ==_iff j i));
  }

  Step-IsOrdered : {n : ℕ} {s t : System T} → Step n s t → IsOrdered n s → IsOrdered n t
  unfolding enqueue halt
  Step-IsOrdered {n} {s} (push task e) o =
      let (going, tasks, same) = enqueue-tasks s.pool.stop task s.pool e in
      record {
        order =
            ap (λ ts. s.started ++ ts) tasks
            ∙ (sym (append_assoc s.started s.pool.tasks (task ∷ []))
                ∙ ap (λ ts. ts ++ (task ∷ [])) o.order);
        under_way = o.under_way;
        none_left = λ i lt x. absurd (ground (arith, (o.none_left i lt x).0, going));
      }
  Step-IsOrdered {n} {s} (notify_one j h p e) o = awake-IsOrdered n j (s.to_notify - 1) s h e o
  Step-IsOrdered (notify_none none_asleep) o = record {
    order = o.order;
    under_way = o.under_way;
    none_left = o.none_left;
  }
  Step-IsOrdered stop_pool o = record {
    order = o.order;
    under_way = o.under_way;
    none_left = λ i lt x. (refl, (o.none_left i lt x).1);
  }
  Step-IsOrdered {n} {s} notify_all o = record {
    order = o.order;
    under_way = o.under_way ∙ ap (λ k. length s.finished + k) (sym (total-roused n s.workers));
    none_left = λ i lt x. o.none_left i lt (roused-exited (s.workers i) x);
  }
  Step-IsOrdered {n} {s} (test i h e) o = test-IsOrdered n i s h e o
  Step-IsOrdered {n} {s} (wake i h e) o = awake-IsOrdered n i s.to_notify s h e o
  Step-IsOrdered {n} {s} (finish i task h e) o = finish-IsOrdered n i task s h e o

  Reach-IsOrdered : {n : ℕ} {s : System T} → Reach n s → IsOrdered n s
  Reach-IsOrdered {n} here = record {
    order = refl;
    under_way = omega (arith, total-zero runs n (launched {T = T}).workers (λ i h. refl));
    none_left = λ i h e. absurd (ground (arith, e));
  }
  Reach-IsOrdered (later r st) = Step-IsOrdered st (Reach-IsOrdered r)

  -- Whatever the callers, the workers and the destructor do, in any order: once all workers have gone,
  -- which is when the destructor returns, the tasks that `enqueue` accepted have been started in the
  -- order of the calls, each once, and as many have ended.
  pub exited-all_ran :
      (n : ℕ) (s : System T)
      → 0 < n
      → Reach n s
      → ((i : ℕ) → i < n → s.workers i ≡ exited)
      → (s.started ≡ s.enqueued) × (length s.finished ≡ length s.enqueued) × (s.pool.stop ≡ true)
  exited-all_ran n s h r gone =
      let o = Reach-IsOrdered r in
      let (stopped, none) = o.none_left 0 h (gone 0 h) in
      let same : s.started ≡ s.enqueued =
        sym (append-nil s.started) ∙ (ap (λ ts. s.started ++ ts) (sym none) ∙ o.order) in
      (
        same,
        omega (
          arith,
          o.under_way,
          ap length same,
          total-zero runs n s.workers (λ i lt. ap runs (gone i lt)),
        ),
        stopped,
      )

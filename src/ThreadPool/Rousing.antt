-- ===== src/ThreadPool/Rousing.antt =====
-- No worker sleeps on beside a task, or in a pool that was stopped.
use marc_fs.Base.{
  ℕ, ◌+◌, ◌≤◌, ◌<◌, ◌≡◌, refl, ap, ◌≢◌, ◌⊎◌, inl, inr, Bool, true, false, List, [], ◌∷◌, ◌++◌,
  arith, length, length-append, ok,
}
use native.Mathlib.Decide.{dec_lt}
use marc_fs.Base.Families.{total, total-update, total-zero, total-positive, le-total}
use marc_fs.ThreadPool.{
  Worker, awake, asleep, running, exited, pushed, enqueue, next_of, next, halt, roused, System,
  tested, Step, push, notify_one, notify_none, stop_pool, notify_all, test, wake, finish, launched,
  Reach, here, later,
}

module _ {T : Type 0} where
  abbrev pub sleeps : Worker T → ℕ
  sleeps asleep = 1
  sleeps _ = 0

  abbrev pub wakes : Worker T → ℕ
  wakes awake = 1
  wakes _ = 0

  -- No worker sleeps, or all are about to be woken, or there are as many calls of `notify_one` to come
  -- and workers about to test as there are tasks.
  abbrev IsRoused : ℕ → System T → Type 0
  IsRoused n s =
      (total sleeps n s.workers ≡ 0)
      ⊎ ((s.to_notify_all ≡ true)
          ⊎ ((s.pool.stop ≡ false) × (length s.pool.tasks ≤ s.to_notify + total wakes n s.workers)))

  push-IsRoused :
      (n : ℕ) (task : T) (s : System T) (stop : Bool)
      → s.pool.stop ≡ stop
      → (pushed stop task s.pool).0 ≡ ok tt
      → IsRoused n s
      → IsRoused n (record s {
        pool = (pushed stop task s.pool).1;
        to_notify = s.to_notify + 1;
        enqueued = s.enqueued ++ (task ∷ []);
      })
  push-IsRoused n task s true e g r = cc
  push-IsRoused n task s false e g r = ground (arith, length-append s.pool.tasks (task ∷ []))

  awake-sleeps : (w : Worker T) → w ≢ asleep → sleeps w ≡ 0
  awake-sleeps awake h = refl
  awake-sleeps asleep h = absurd (h refl)
  awake-sleeps (running t) h = refl
  awake-sleeps exited h = refl

  sleeps-roused : (w : Worker T) → sleeps (roused w) ≡ 0
  sleeps-roused awake = refl
  sleeps-roused asleep = refl
  sleeps-roused (running t) = refl
  sleeps-roused exited = refl

  test-IsRoused :
      (n i : ℕ) (s : System T) (tasks : List T) (stop : Bool)
      → s.pool.tasks ≡ tasks
      → s.pool.stop ≡ stop
      → i < n
      → s.workers i ≡ awake
      → IsRoused n s
      → IsRoused n
          (tested i s ((next_of tasks stop).0, record s.pool { tasks = (next_of tasks stop).1 }))
  test-IsRoused n i s (task ∷ rest) stop t p h e r = ground (
    arith,
    ap length t,
    ap sleeps e,
    ap wakes e,
    total-update sleeps n s.workers i (running task) h,
    total-update wakes n s.workers i (running task) h,
  )
  test-IsRoused n i s [] true t p h e r =
      ground (arith, p, ap sleeps e, total-update sleeps n s.workers i exited h)
  test-IsRoused n i s [] false t p h e r = inr (inr (p, omega arith))

  Step-IsRoused : {n : ℕ} {s t : System T} → Step n s t → IsRoused n s → IsRoused n t
  unfolding enqueue halt next
  Step-IsRoused {n} {s} (push task e) r = push-IsRoused n task s s.pool.stop refl e r
  Step-IsRoused {n} {s} (notify_one j h p e) r = ground (
    arith,
    ap sleeps e,
    ap wakes e,
    total-update sleeps n s.workers j awake h,
    total-update wakes n s.workers j awake h,
  )
  Step-IsRoused {n} {s} (notify_none none_asleep) r =
      inl (total-zero sleeps n s.workers (λ j lt. awake-sleeps (s.workers j) (none_asleep j lt)))
  Step-IsRoused stop_pool r = inr (inl refl)
  Step-IsRoused {n} {s} notify_all r =
      inl (total-zero sleeps n (λ i. roused (s.workers i)) (λ j lt. sleeps-roused (s.workers j)))
  Step-IsRoused {n} {s} (test i h e) r =
      test-IsRoused n i s s.pool.tasks s.pool.stop refl refl h e r
  Step-IsRoused {n} {s} (wake i h e) r = ground (
    arith,
    ap sleeps e,
    ap wakes e,
    total-update sleeps n s.workers i awake h,
    total-update wakes n s.workers i awake h,
  )
  Step-IsRoused {n} {s} (finish i task h e) r = ground (
    arith,
    ap sleeps e,
    ap wakes e,
    total-update sleeps n s.workers i awake h,
    total-update wakes n s.workers i awake h,
  )

  Reach-IsRoused : {n : ℕ} {s : System T} → Reach n s → IsRoused n s
  Reach-IsRoused {n} here = inl (total-zero sleeps n (launched {T = T}).workers (λ i h. refl))
  Reach-IsRoused (later r st) = Step-IsRoused st (Reach-IsRoused r)

  waking : (w : Worker T) → 0 < wakes w → w ≡ awake
  waking awake h = refl
  waking asleep h = absurd (omega arith)
  waking (running t) h = absurd (omega arith)
  waking exited h = absurd (omega arith)

  -- While a worker sleeps beside a task, or after the destructor has stopped the pool, a call of the
  -- condition variable is still to come, or another worker is about to take a task: no worker is
  -- forgotten, so the destructor does not wait for a sleeper.
  pub none_sleeps_on :
      (n i : ℕ) (s : System T)
      → Reach n s
      → i < n
      → s.workers i ≡ asleep
      → (s.pool.stop ≡ true) ⊎ (0 < length s.pool.tasks)
      → (s.to_notify_all ≡ true) ⊎ ((0 < s.to_notify) ⊎ ((j : ℕ) × (j < n) × (s.workers j ≡ awake)))
  none_sleeps_on n i s r h e busy = elim (Reach-IsRoused r) [
    | inl none ↦ absurd (omega (arith, none, ap sleeps e, le-total sleeps n s.workers i h))
    | inr (inl all) ↦ inl all
    | inr (inr (going, enough)) ↦ elim (dec_lt 0 s.to_notify) [
      | yes calls ↦ inr (inl calls)
      | no none ↦
          let left : 0 < length s.pool.tasks = ground (arith, going, busy) in
          let (j, lt, up) = total-positive wakes n s.workers (omega (arith, left, enough)) in
          inr (inr (j, lt, waking (s.workers j) up))
    ]
  ]

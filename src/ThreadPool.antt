-- ===== src/ThreadPool.antt =====
-- src/thread_pool.h: workers that run the tasks of one queue. A step of the system is what one thread
-- does under the pool's lock, one call of the condition variable, or the end of a task. A task that
-- throws leaves its exception in its future, so it ends like another.
pub mod Running
pub mod Rousing
use marc_fs.Base.{
  [], ℕ, ◌+◌, ◌-◌, ◌<◌, ◌≡◌, ◌≢◌, Bool, true, false, List, ◌∷◌, ◌++◌, failure, Result, ok, fail,
}
use marc_fs.Base.Families.{update}

pub record ThreadPool (T : Type 0) : Type 0 where
  pub tasks : List T
  pub stop : Bool

-- Where a worker stands: before the lock in its loop, asleep in `wait`, in a task, or out of the loop.
pub data Worker (T : Type 0) : Type 0 where
  awake : Worker T
  asleep : Worker T
  running : T → Worker T
  exited : Worker T

module _ {T : Type 0} where
  abbrev pub pushed : Bool → T → ThreadPool T → Result (Unit {0}) × ThreadPool T
  pushed true task p = (fail failure, p)
  pushed false task p = (ok tt, record p { tasks = p.tasks ++ (task ∷ []) })

  -- A stopped pool throws.
  unfoldable pub enqueue : T → ThreadPool T → Result (Unit {0}) × ThreadPool T
  enqueue task p = pushed p.stop task p

  abbrev pub next_of : List T → Bool → Worker T × List T
  next_of (task ∷ rest) stop = (running task, rest)
  next_of [] true = (exited, [])
  next_of [] false = (asleep, [])

  -- The locked block of a worker's loop, from the test of the condition on.
  unfoldable pub next : ThreadPool T → Worker T × ThreadPool T
  next p = let (worker, rest) = next_of p.tasks p.stop in (worker, record p { tasks = rest })

  -- The locked block of the destructor.
  unfoldable pub halt : ThreadPool T → ThreadPool T
  halt p = record p { stop = true }

  -- `notify_all`
  abbrev pub roused : Worker T → Worker T
  roused asleep = awake
  roused w = w

  abbrev pub taken : Worker T → List T
  taken (running task) = task ∷ []
  taken _ = []

-- The workers with their pool; the calls of the condition variable that are still to come, of `enqueue`
-- and of the destructor; and what has happened so far.
pub record System (T : Type 0) : Type 0 where
  pub pool : ThreadPool T
  pub workers : ℕ → Worker T
  pub to_notify : ℕ
  pub to_notify_all : Bool
  pub enqueued : List T
  pub started : List T
  pub finished : List T

module _ {T : Type 0} where
  abbrev pub tested : ℕ → System T → Worker T × ThreadPool T → System T
  tested i s (w, p) = record s {
    pool = p;
    workers = update s.workers i w;
    started = s.started ++ taken w;
  }

  abbrev pub set_worker : ℕ → Worker T → System T → System T
  set_worker i w s = record s { workers = update s.workers i w }

  -- A worker may wake without a call of the condition variable.
  pub data Step (n : ℕ) (s : System T) : System T → Type 0 where
    push :
        (task : T)
        → (enqueue task s.pool).0 ≡ ok tt
        → Step n s (record s {
          pool = (enqueue task s.pool).1;
          to_notify = s.to_notify + 1;
          enqueued = s.enqueued ++ (task ∷ []);
        })
    notify_one :
        (j : ℕ)
        → j < n
        → 0 < s.to_notify
        → s.workers j ≡ asleep
        → Step n s (record s { workers = update s.workers j awake; to_notify = s.to_notify - 1 })
    notify_none :
        ((j : ℕ) → j < n → s.workers j ≢ asleep)
        → Step n s (record s { to_notify = s.to_notify - 1 })
    stop_pool : Step n s (record s { pool = halt s.pool; to_notify_all = true })
    notify_all : Step n s (record s { workers = λ i. roused (s.workers i); to_notify_all = false })
    test : (i : ℕ) → i < n → s.workers i ≡ awake → Step n s (tested i s (next s.pool))
    wake : (i : ℕ) → i < n → s.workers i ≡ asleep → Step n s (set_worker i awake s)
    finish :
        (i : ℕ) (task : T)
        → i < n
        → s.workers i ≡ running task
        → Step n s
            (record s { workers = update s.workers i awake; finished = s.finished ++ (task ∷ []) })

  -- The constructor launches the workers.
  abbrev pub launched : System T
  launched = record {
    pool = record { tasks = []; stop = false };
    workers = λ i. awake;
    to_notify = 0;
    to_notify_all = false;
    enqueued = [];
    started = [];
    finished = [];
  }

  pub data Reach (n : ℕ) : System T → Type 0 where
    here : Reach n launched
    later : {s t : System T} → Reach n s → Step n s t → Reach n t

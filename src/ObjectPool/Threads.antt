-- ===== src/ObjectPool/Threads.antt =====
-- Threads that share one pool, in any order. A step is what one thread does under the pool's lock, or
-- one call of the condition variable.
use marc_fs.Base.{[], ℕ, ◌<◌, ◌≡◌, ◌≢◌, Option, none, some, List, ◌∷◌, if◌then◌else◌}
use marc_fs.Base.Families.{update}
use marc_fs.ObjectPool.{Object, ObjectPool, empty_pool, acquire, deleter, populate}

-- Where a thread stands: outside the pool's code, asleep in `wait`, about to test again whether the
-- pool is empty, or between the lock of `add` and its `notify_one`.
pub data Phase : Type 0 where
  idle : Phase
  asleep : Phase
  woken : Phase
  notifying : Phase

-- The pointers that a thread holds; their scopes nest, so the last comes first.
pub record Thread (T : Type 0) : Type 0 where
  pub phase : Phase
  pub held : List (Object T)

pub record System (T : Type 0) : Type 0 where
  pub pool : ObjectPool T
  pub threads : ℕ → Thread T

module _ {T : Type 0} where
  -- The block of `acquire` from the test of the condition on.
  abbrev pub turned :
      ObjectPool T → Thread T → Option (Object T × ObjectPool T) → ObjectPool T × Thread T
  turned p t none = (p, record t { phase = asleep })
  turned p t (some (x, q)) = (q, record { phase = idle; held = x ∷ t.held })

  unfoldable pub turn : ObjectPool T → Thread T → ObjectPool T × Thread T
  turn p t = turned p t (acquire p)

  -- The last pointer of a thread goes out of scope.
  unfoldable pub let_go : Object T → List (Object T) → ObjectPool T → ObjectPool T × Thread T
  let_go x rest p =
      (deleter x p, record { phase = if p.shutting_down then idle else notifying; held = rest })

  abbrev pub placed : ℕ → System T → ObjectPool T × Thread T → System T
  placed i s (p, t) = record { pool = p; threads = update s.threads i t }

  abbrev pub moved : ℕ → Phase → System T → System T
  moved i ph s = record s { threads = update s.threads i (record (s.threads i) { phase = ph }) }

  -- A thread may wake without a call of `notify_one`.
  pub data Step (n : ℕ) (s : System T) : System T → Type 0 where
    enter :
        (i : ℕ)
        → i < n
        → (s.threads i).phase ≡ idle
        → Step n s (placed i s (turn s.pool (s.threads i)))
    test :
        (i : ℕ)
        → i < n
        → (s.threads i).phase ≡ woken
        → Step n s (placed i s (turn s.pool (s.threads i)))
    wake : (i : ℕ) → i < n → (s.threads i).phase ≡ asleep → Step n s (moved i woken s)
    release :
        (i : ℕ) (x : Object T) (rest : List (Object T))
        → i < n
        → s.threads i ≡ record { phase = idle; held = x ∷ rest }
        → Step n s (placed i s (let_go x rest s.pool))
    notify :
        (i j : ℕ)
        → i < n
        → j < n
        → (s.threads i).phase ≡ notifying
        → (s.threads j).phase ≡ asleep
        → Step n s (moved i idle (moved j woken s))
    notify_none :
        (i : ℕ)
        → i < n
        → (s.threads i).phase ≡ notifying
        → ((j : ℕ) → j < n → (s.threads j).phase ≢ asleep)
        → Step n s (moved i idle s)
    work :
        (i : ℕ) (x : Object T) (rest : List (Object T)) (v : T)
        → i < n
        → s.threads i ≡ record { phase = idle; held = x ∷ rest }
        → Step n s (record s {
          threads =
              update s.threads i (record { phase = idle; held = record x { value = v } ∷ rest });
        })

  -- `main` fills the pool, and no thread holds anything yet.
  abbrev pub start_of : T → ℕ → System T
  start_of obj number = record {
    pool = populate obj number empty_pool;
    threads = λ i. record { phase = idle; held = [] };
  }

  -- What a run of `n` threads can reach.
  pub data Reach (n : ℕ) (s : System T) : System T → Type 0 where
    here : Reach n s s
    later : {t u : System T} → Reach n s t → Step n t u → Reach n s u

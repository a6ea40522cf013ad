-- ===== src/ObjectPool/Stuck.antt =====
-- A thread that asks for a second object while it holds one: with every object taken, all wait for ever.
use marc_fs.Base.{
  ℕ, zero, suc, ◌+◌, ◌≤◌, ◌<◌, ◌≡◌, refl, subst, sym, ap, ==_iff, Bool, true, false, List, [], ◌∷◌,
  arith, length, length-append, length-eq-zero,
}
use marc_fs.Base.Families.{update}
use marc_fs.ObjectPool.{Object, ObjectPool, empty_pool, populate_one, populate, take_front}
use marc_fs.ObjectPool.Threads.{
  Phase, idle, asleep, woken, Thread, System, turned, turn, placed, Step, enter, test, wake,
  release, notify, notify_none, work, start_of, Reach, here, later,
}

-- A thread inside `acquire`.
abbrev pub waits : Phase → Bool
waits asleep = true
waits woken = true
waits _ = false

moves_on : (ph ph' : Phase) → ph ≡ ph' → waits ph ≡ true → waits ph' ≡ false → ⊥
moves_on ph ph' e f g = ground (arith, ap waits e)

module _ {T : Type 0} where
  -- The pool is empty, and each of the threads waits.
  pub record IsStuck (n : ℕ) (s : System T) : Type 0 where
    pub none_free : s.pool.objects ≡ []
    pub all_wait : (i : ℕ) → i < n → waits (s.threads i).phase ≡ true

  turn-none :
      (p : ObjectPool T) (t : Thread T)
      → p.objects ≡ []
      → turn p t ≡ (p, record t { phase = asleep })
  unfolding turn take_front
  turn-none p t e = ap (λ xs. turned p t (take_front xs p)) e

  waits-update :
      (n i : ℕ) (s : System T) (t : Thread T)
      → ((j : ℕ) → j < n → waits (s.threads j).phase ≡ true)
      → waits t.phase ≡ true
      → (j : ℕ) → j < n
      → waits (update s.threads i t j).phase ≡ true
  waits-update n i s t all e j h = ground (arith, all j h)

  -- Whatever step follows, all still wait.
  Step-IsStuck : {n : ℕ} {s t : System T} → Step n s t → IsStuck n s → IsStuck n t
  Step-IsStuck {n} {s} (enter i h e) st = absurd (moves_on _ _ e (st.all_wait i h) refl)
  Step-IsStuck {n} {s} (test i h e) st =
      subst (λ x. IsStuck n (placed i s x)) (sym (turn-none s.pool (s.threads i) st.none_free))
        (record {
          none_free = st.none_free;
          all_wait = waits-update n i s (record (s.threads i) { phase = asleep }) st.all_wait refl;
        })
  Step-IsStuck {n} {s} (wake i h e) st = record {
    none_free = st.none_free;
    all_wait = waits-update n i s (record (s.threads i) { phase = woken }) st.all_wait refl;
  }
  Step-IsStuck (release i x rest h e) st =
      absurd (moves_on _ _ (ap (λ t. t.phase) e) (st.all_wait i h) refl)
  Step-IsStuck (notify i j h k e f) st = absurd (moves_on _ _ e (st.all_wait i h) refl)
  Step-IsStuck (notify_none i h e f) st = absurd (moves_on _ _ e (st.all_wait i h) refl)
  Step-IsStuck (work i x rest v h e) st =
      absurd (moves_on _ _ (ap (λ t. t.phase) e) (st.all_wait i h) refl)

  Reach-IsStuck : {n : ℕ} {s t : System T} → Reach n s t → IsStuck n s → IsStuck n t
  Reach-IsStuck here st = st
  Reach-IsStuck (later r step) st = Step-IsStuck step (Reach-IsStuck r st)

  -- The first `k` threads hold one object each, and no other is taken.
  record Took (n k : ℕ) (s : System T) : Type 0 where
    none_waits : (j : ℕ) → (s.threads j).phase ≡ idle
    holding : (j : ℕ) → j < k → length (s.threads j).held ≡ 1
    not_yet : (j : ℕ) → k ≤ j → length (s.threads j).held ≡ 0
    left_over : k + length s.pool.objects ≡ n

  take-Took :
      (n k : ℕ) (s : System T) (xs : List (Object T))
      → s.pool.objects ≡ xs
      → k < n
      → Took n k s
      → Took n (suc k) (placed k s (turned s.pool (s.threads k) (take_front xs s.pool)))
  unfolding take_front
  take-Took n k s [] e h tk = absurd (omega (arith, ap length e, tk.left_over))
  take-Took n k s (x ∷ xs) e h tk = record {
    none_waits = λ j. ground (arith, tk.none_waits j);
    holding = λ j lt. ground (arith, ==_iff j k, tk.holding j, tk.not_yet k);
    not_yet = λ j le. ground (arith, ==_iff j k, tk.not_yet j);
    left_over = omega (arith, ap length e, tk.left_over);
  }

  -- The first `k` threads wait for a second object.
  record Asked (n k : ℕ) (s : System T) : Type 0 where
    none_free : s.pool.objects ≡ []
    waiting : (j : ℕ) → j < k → (s.threads j).phase ≡ asleep
    not_yet : (j : ℕ) → k ≤ j → (s.threads j).phase ≡ idle
    holding : (j : ℕ) → j < n → length (s.threads j).held ≡ 1

  ask-Asked :
      (n k : ℕ) (s : System T)
      → k < n
      → Asked n k s
      → Asked n (suc k) (placed k s (turn s.pool (s.threads k)))
  ask-Asked n k s h asked =
      subst (λ x. Asked n (suc k) (placed k s x))
        (sym (turn-none s.pool (s.threads k) asked.none_free))
        (record {
          none_free = asked.none_free;
          waiting = λ j lt. ground (arith, ==_iff j k, asked.waiting j);
          not_yet = λ j le. ground (arith, ==_iff j k, asked.not_yet j);
          holding = λ j lt. ground (arith, ==_iff j k, asked.holding j, asked.holding k);
        })

  length-populate :
      (obj : T) (k : ℕ) (p : ObjectPool T)
      → length (populate obj k p).objects ≡ length p.objects + k
  unfolding populate
  length-populate obj zero p = omega arith
  length-populate obj (suc k) p = omega (
    arith,
    length-populate obj k (populate_one obj p),
    length-append p.objects (record { address = p.next_address; value = obj } ∷ []),
  )

  all_take : (n k : ℕ) (obj : T) → k ≤ n → (s : System T) × Reach n (start_of obj n) s × Took n k s
  unfolding turn
  all_take n zero obj h = (
    start_of obj n,
    here,
    record {
      none_waits = λ j. refl;
      holding = λ j lt. absurd (omega arith);
      not_yet = λ j le. refl;
      left_over = omega (arith, length-populate obj n empty_pool);
    },
  )
  all_take n (suc k) obj h =
      let (s, r, tk) = all_take n k obj (omega arith) in
      (
        placed k s (turn s.pool (s.threads k)),
        later r (enter k (omega arith) (tk.none_waits k)),
        take-Took n k s s.pool.objects refl (omega arith) tk,
      )

  all_ask : (n k : ℕ) (obj : T) → k ≤ n → (s : System T) × Reach n (start_of obj n) s × Asked n k s
  all_ask n zero obj h =
      let (s, r, tk) = all_take n n obj (omega arith) in
      (
        s,
        r,
        record {
          none_free = length-eq-zero s.pool.objects (omega (arith, tk.left_over));
          waiting = λ j lt. absurd (omega arith);
          not_yet = λ j le. tk.none_waits j;
          holding = tk.holding;
        },
      )
  all_ask n (suc k) obj h =
      let (s, r, asked) = all_ask n k obj (omega arith) in
      (
        placed k s (turn s.pool (s.threads k)),
        later r (enter k (omega arith) (asked.not_yet k (omega arith))),
        ask-Asked n k s (omega arith) asked,
      )

  -- With as many threads as objects, each thread can take an object and ask for a second one. From then
  -- on every thread waits inside `acquire` with the object that it holds, whatever step follows.
  pub all_wait_for_ever :
      (n : ℕ) (obj : T)
      → (s : System T) × Reach n (start_of obj n) s
        × ((j : ℕ) → j < n → length (s.threads j).held ≡ 1)
        × ((t : System T) → Reach n s t → IsStuck n t)
  all_wait_for_ever n obj =
      let (s, r, asked) = all_ask n n obj (omega arith) in
      (
        s,
        r,
        asked.holding,
        λ t later_on. Reach-IsStuck later_on (record {
          none_free = asked.none_free;
          all_wait = λ i h. ap waits (asked.waiting i h);
        }),
      )

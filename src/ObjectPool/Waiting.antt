-- ===== src/ObjectPool/Waiting.antt =====
-- No call of `notify_one` is lost: a thread does not sleep on beside a free object.
use marc_fs.Base.{
  ℕ, ◌≤◌, ◌<◌, ◌≡◌, refl, ap, ◌≢◌, ◌⊎◌, ==_iff, inl, inr, false, List, [], ◌∷◌, arith, length,
  length-append,
}
use marc_fs.Base.Families.{update, total, total-update, total-zero, total-positive, le-total}
use marc_fs.ObjectPool.{Object, empty_pool, add, deleter, take_front}
use marc_fs.ObjectPool.Threads.{
  Phase, idle, asleep, woken, notifying, Thread, System, turned, turn, let_go, placed, moved, Step,
  enter, test, wake, release, notify, notify_none, work, start_of, Reach, here, later,
}
use native.Mathlib.Decide.{dec_lt}
use marc_fs.ObjectPool.Sharing.{held_of, Reach-copies, Reach-conserved, running-populate}
use marc_fs.ObjectPool.Counts.{occurrences}

abbrev pub sleep_phase : Phase → ℕ
sleep_phase asleep = 1
sleep_phase _ = 0

-- About to test, or about to notify.
abbrev pub stir_phase : Phase → ℕ
stir_phase woken = 1
stir_phase notifying = 1
stir_phase _ = 0

awake_phase : (ph : Phase) → ph ≢ asleep → sleep_phase ph ≡ 0
awake_phase idle h = refl
awake_phase asleep h = absurd (h refl)
awake_phase woken h = refl
awake_phase notifying h = refl

stirring : (ph : Phase) → 0 < stir_phase ph → (ph ≡ woken) ⊎ (ph ≡ notifying)
stirring idle h = absurd (omega arith)
stirring asleep h = absurd (omega arith)
stirring woken h = inl refl
stirring notifying h = inr refl

module _ {T : Type 0} where
  occurrences-none : (a : ℕ) (xs : List (Object T)) → length xs ≡ 0 → occurrences a xs ≡ 0
  unfolding occurrences
  occurrences-none a [] e = refl
  occurrences-none a (x ∷ xs) e = absurd (omega arith)

  abbrev pub sleeps : Thread T → ℕ
  sleeps t = sleep_phase t.phase

  abbrev pub stirs : Thread T → ℕ
  stirs t = stir_phase t.phase

  -- Either no thread sleeps, or there are as many that stir as there are objects.
  abbrev pub IsAwake : ℕ → System T → Type 0
  IsAwake n s = (total sleeps n s.threads ≡ 0) ⊎ (length s.pool.objects ≤ total stirs n s.threads)

  IsAwake-turned :
      (n i : ℕ) (s : System T) (xs : List (Object T))
      → s.pool.objects ≡ xs
      → i < n
      → sleeps (s.threads i) ≡ 0
      → IsAwake n s
      → IsAwake n (placed i s (turned s.pool (s.threads i) (take_front xs s.pool)))
  unfolding take_front
  IsAwake-turned n i s [] e h up aw = inr (omega (arith, ap length e))
  IsAwake-turned n i s (x ∷ xs) e h up aw =
      let t : Thread T = record { phase = idle; held = x ∷ (s.threads i).held } in
      ground (
        arith,
        ap length e,
        total-update sleeps n s.threads i t h,
        total-update stirs n s.threads i t h,
      )

  IsAwake-changed :
      (n i : ℕ) (t : Thread T) (s : System T)
      → i < n
      → stirs (s.threads i) ≤ stirs t
      → sleeps t ≤ sleeps (s.threads i)
      → IsAwake n s
      → IsAwake n (placed i s (s.pool, t))
  IsAwake-changed n i t s h up down aw =
      ground (arith, total-update sleeps n s.threads i t h, total-update stirs n s.threads i t h)

  IsAwake-let_go :
      (n i : ℕ) (s : System T) (x : Object T) (rest : List (Object T))
      → s.pool.shutting_down ≡ false
      → i < n
      → s.threads i ≡ record { phase = idle; held = x ∷ rest }
      → IsAwake n s
      → IsAwake n (placed i s (let_go x rest s.pool))
  unfolding let_go deleter add
  IsAwake-let_go n i s x rest run h e aw =
      let t : Thread T = record { phase = notifying; held = rest } in
      ground (
        arith,
        ap sleeps e,
        ap stirs e,
        length-append s.pool.objects (x ∷ []),
        total-update sleeps n s.threads i t h,
        total-update stirs n s.threads i t h,
      )

  -- The one that is woken stirs in place of the one that notified.
  IsAwake-notify :
      (n i j : ℕ) (s : System T)
      → i < n
      → j < n
      → (s.threads i).phase ≡ notifying
      → (s.threads j).phase ≡ asleep
      → IsAwake n s
      → IsAwake n (moved i idle (moved j woken s))
  IsAwake-notify n i j s h k e f aw =
      let t : Thread T = record (s.threads j) { phase = woken } in
      let u : Thread T = record (update s.threads j t i) { phase = idle } in
      ground (
        arith,
        ap sleep_phase e,
        ap stir_phase e,
        ap sleep_phase f,
        ap stir_phase f,
        ==_iff i j,
        total-update sleeps n s.threads j t k,
        total-update stirs n s.threads j t k,
        total-update sleeps n (update s.threads j t) i u h,
        total-update stirs n (update s.threads j t) i u h,
      )

  IsAwake-notify_none :
      (n i : ℕ) (s : System T)
      → i < n
      → ((j : ℕ) → j < n → (s.threads j).phase ≢ asleep)
      → IsAwake n (moved i idle s)
  IsAwake-notify_none n i s h none_asleep = inl (
      omega (
        arith,
        total-update sleeps n s.threads i (record (s.threads i) { phase = idle }) h,
        total-zero sleeps n s.threads (λ j k. awake_phase (s.threads j).phase (none_asleep j k)),
      ))

  Step-IsAwake :
      {n : ℕ} {s t : System T}
      → Step n s t
      → s.pool.shutting_down ≡ false
      → IsAwake n s
      → IsAwake n t
  unfolding turn
  Step-IsAwake {n} {s} (enter i h e) run aw =
      IsAwake-turned n i s s.pool.objects refl h (ap sleep_phase e) aw
  Step-IsAwake {n} {s} (test i h e) run aw =
      IsAwake-turned n i s s.pool.objects refl h (ap sleep_phase e) aw
  Step-IsAwake {n} {s} (wake i h e) run aw =
      IsAwake-changed n i (record (s.threads i) { phase = woken }) s h
        (omega (arith, ap stir_phase e)) (omega (arith, ap sleep_phase e)) aw
  Step-IsAwake {n} {s} (release i x rest h e) run aw = IsAwake-let_go n i s x rest run h e aw
  Step-IsAwake {n} {s} (notify i j h k e f) run aw = IsAwake-notify n i j s h k e f aw
  Step-IsAwake {n} {s} (notify_none i h e f) run aw = IsAwake-notify_none n i s h f
  Step-IsAwake {n} {s} (work i x rest v h e) run aw =
      IsAwake-changed n i (record { phase = idle; held = record x { value = v } ∷ rest }) s h
        (omega (arith, ap stirs e)) (omega (arith, ap sleeps e)) aw

  Reach-IsAwake :
      {n : ℕ} {s t : System T}
      → Reach n s t
      → s.pool.shutting_down ≡ false
      → IsAwake n s
      → IsAwake n t
  Reach-IsAwake here run aw = aw
  Reach-IsAwake (later r st) run aw =
      Step-IsAwake st (Reach-copies r run).0 (Reach-IsAwake r run aw)

  -- While an object is free and a thread sleeps in `acquire`, some thread is about to test the pool
  -- again, or to call `notify_one`: no wake-up is lost.
  pub no_lost_wakeup :
      (n number : ℕ) (obj : T) (s : System T) (i : ℕ)
      → Reach n (start_of obj number) s
      → i < n
      → (s.threads i).phase ≡ asleep
      → 0 < length s.pool.objects
      → (j : ℕ) × (j < n) × (((s.threads j).phase ≡ woken) ⊎ ((s.threads j).phase ≡ notifying))
  no_lost_wakeup n number obj s i r h e free =
      let aw =
        Reach-IsAwake r (running-populate obj number empty_pool)
          (inl (total-zero sleeps n (start_of obj number).threads (λ j k. refl))) in
      let (j, k, p) =
        total-positive stirs n s.threads
          (ground (arith, ap sleep_phase e, le-total sleeps n s.threads i h)) in
      (j, k, stirring (s.threads j).phase p)

  -- A thread sleeps and no thread is about to move inside the pool: then every object that `main` put
  -- into the pool is held by a thread.
  pub waits_justified :
      (n number : ℕ) (obj : T) (s : System T) (i : ℕ)
      → Reach n (start_of obj number) s
      → i < n
      → (s.threads i).phase ≡ asleep
      → ((j : ℕ) → j < n → ((s.threads j).phase ≢ woken) × ((s.threads j).phase ≢ notifying))
      → (a : ℕ) → a < number
      → (j : ℕ) × (j < n) × (0 < occurrences a (s.threads j).held)
  waits_justified n number obj s i r h e quiet a lt = elim (dec_lt 0 (length s.pool.objects)) [
    | yes free ↦
        let (j, k, p) = no_lost_wakeup n number obj s i r h e free in
        absurd (elim p [ inl w ↦ (quiet j k).0 w | inr w ↦ (quiet j k).1 w ])
    | no none_free ↦ total-positive (held_of a) n s.threads (
        ground (
          arith,
          Reach-conserved n number obj s r a,
          occurrences-none a s.pool.objects (omega arith),
        ))
  ]

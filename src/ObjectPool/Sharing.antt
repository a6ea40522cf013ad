-- ===== src/ObjectPool/Sharing.antt =====
-- No object is lost, and none is with two threads.
use marc_fs.Base.{
  ℕ, zero, suc, ◌+◌, ◌≤◌, ◌<◌, ◌≡◌, refl, sym, ap, ◌∙◌, ◌≢◌, false, List, [], ◌∷◌, arith, ltb, leb,
  ==_iff, if◌then◌else◌,
}
use marc_fs.Base.Families.{update, total, total-update, total-zero, le-total}
use marc_fs.ObjectPool.{
  Object, ObjectPool, empty_pool, populate_one, populate, add, deleter, take_front,
}
use marc_fs.ObjectPool.Threads.{
  Phase, idle, woken, Thread, System, turned, turn, let_go, placed, moved, Step, enter, test, wake,
  release, notify, notify_none, work, start_of, Reach, here, later,
}
use marc_fs.ObjectPool.Counts.{occurrences, occurrences-append}

module _ {T : Type 0} where
  abbrev pub held_of : ℕ → Thread T → ℕ
  held_of a t = occurrences a t.held

  -- How often the address stands in the pool, and with the threads.
  abbrev pub copies : ℕ → ℕ → System T → ℕ
  copies n a s = occurrences a s.pool.objects + total (held_of a) n s.threads

  occurrences-populate :
      (obj : T) (k a : ℕ) (p : ObjectPool T)
      → occurrences a (populate obj k p).objects
        ≡ occurrences a p.objects
          + (if leb p.next_address a then (if ltb a (p.next_address + k) then 1 else 0) else 0)
  unfolding populate occurrences
  occurrences-populate obj zero a p = ground arith
  occurrences-populate obj (suc k) a p = ground (
    arith,
    occurrences-populate obj k a (populate_one obj p),
    occurrences-append a p.objects (record { address = p.next_address; value = obj } ∷ []),
    ==_iff p.next_address a,
  )

  pub running-populate :
      (obj : T) (k : ℕ) (p : ObjectPool T) → (populate obj k p).shutting_down ≡ p.shutting_down
  unfolding populate
  running-populate obj zero p = refl
  running-populate obj (suc k) p = running-populate obj k _

  -- What one thread gains, the pool loses.
  copies-placed :
      (n i a : ℕ) (s : System T) (x : ObjectPool T × Thread T)
      → i < n
      → occurrences a x.0.objects + held_of a x.1
        ≡ occurrences a s.pool.objects + held_of a (s.threads i)
      → copies n a (placed i s x) ≡ copies n a s
  copies-placed n i a s (p, t) h e = omega (arith, total-update (held_of a) n s.threads i t h)

  copies-moved :
      (n i a : ℕ) (ph : Phase) (s : System T) → i < n → copies n a (moved i ph s) ≡ copies n a s
  copies-moved n i a ph s h =
      copies-placed n i a s (s.pool, record (s.threads i) { phase = ph }) h refl

  occurrences-turned :
      (a : ℕ) (p : ObjectPool T) (t : Thread T) (xs : List (Object T))
      → p.objects ≡ xs
      → occurrences a (turned p t (take_front xs p)).0.objects
          + held_of a (turned p t (take_front xs p)).1
        ≡ occurrences a xs + held_of a t
  unfolding take_front occurrences
  occurrences-turned a p t [] e = ap (λ ys. occurrences a ys + held_of a t) e
  occurrences-turned a p t (x ∷ xs) e = omega arith

  occurrences-turn :
      (a : ℕ) (p : ObjectPool T) (t : Thread T)
      → occurrences a (turn p t).0.objects + held_of a (turn p t).1
        ≡ occurrences a p.objects + held_of a t
  unfolding turn
  occurrences-turn a p t = occurrences-turned a p t p.objects refl

  occurrences-let_go :
      (a : ℕ) (x : Object T) (rest : List (Object T)) (p : ObjectPool T)
      → p.shutting_down ≡ false
      → occurrences a (let_go x rest p).0.objects + held_of a (let_go x rest p).1
        ≡ occurrences a p.objects + occurrences a (x ∷ rest)
  unfolding let_go deleter add occurrences
  occurrences-let_go a x rest p e = ground (arith, occurrences-append a p.objects (x ∷ []))

  running-turned :
      (p : ObjectPool T) (t : Thread T) (xs : List (Object T))
      → (turned p t (take_front xs p)).0.shutting_down ≡ p.shutting_down
  unfolding take_front
  running-turned p t [] = refl
  running-turned p t (x ∷ xs) = refl

  -- A step keeps the number of copies of each address, and the pool runs on.
  pub Step-copies :
      {n : ℕ} {s t : System T}
      → Step n s t
      → s.pool.shutting_down ≡ false
      → (t.pool.shutting_down ≡ false) × ((a : ℕ) → copies n a t ≡ copies n a s)
  unfolding turn let_go deleter add occurrences
  Step-copies {n} {s} (enter i h e) run = (
    running-turned s.pool (s.threads i) s.pool.objects ∙ run,
    λ a.
        copies-placed n i a s (turn s.pool (s.threads i)) h
          (occurrences-turn a s.pool (s.threads i)),
  )
  Step-copies {n} {s} (test i h e) run = (
    running-turned s.pool (s.threads i) s.pool.objects ∙ run,
    λ a.
        copies-placed n i a s (turn s.pool (s.threads i)) h
          (occurrences-turn a s.pool (s.threads i)),
  )
  Step-copies {n} {s} (wake i h e) run = (run, λ a. copies-moved n i a _ s h)
  Step-copies {n} {s} (release i x rest h e) run = (
    ground arith,
    λ a. copies-placed n i a s (let_go x rest s.pool) h (
        occurrences-let_go a x rest s.pool run
        ∙ ap (λ t. occurrences a s.pool.objects + held_of a t) (sym e)),
  )
  Step-copies {n} {s} (notify i j h k e f) run =
      (run, λ a. copies-moved n i a idle (moved j woken s) h ∙ copies-moved n j a woken s k)
  Step-copies {n} {s} (notify_none i h e f) run = (run, λ a. copies-moved n i a _ s h)
  Step-copies {n} {s} (work i x rest v h e) run = (
    run,
    λ a.
        copies-placed n i a s
          (s.pool, record { phase = idle; held = record x { value = v } ∷ rest }) h
          (ap (λ t. occurrences a s.pool.objects + held_of a t) (sym e)),
  )

  pub Reach-copies :
      {n : ℕ} {s t : System T}
      → Reach n s t
      → s.pool.shutting_down ≡ false
      → (t.pool.shutting_down ≡ false) × ((a : ℕ) → copies n a t ≡ copies n a s)
  Reach-copies here run = (run, λ a. refl)
  Reach-copies (later r st) run =
      let (run', same) = Reach-copies r run in
      let (run'', same') = Step-copies st run' in (run'', λ a. same' a ∙ same a)

  copies-start_of :
      (n number a : ℕ) (obj : T)
      → copies n a (start_of obj number) ≡ (if ltb a number then 1 else 0)
  unfolding occurrences
  copies-start_of n number a obj = ground (
    arith,
    occurrences-populate obj number a empty_pool,
    total-zero (held_of a) n (start_of obj number).threads (λ i h. refl),
  )

  -- Whatever `n` threads do, in any order: each object that `main` put into the pool is at one place,
  -- in the pool or with one thread, and nothing else is in circulation.
  pub Reach-conserved :
      (n number : ℕ) (obj : T) (s : System T)
      → Reach n (start_of obj number) s
      → (a : ℕ)
      → occurrences a s.pool.objects + total (held_of a) n s.threads
        ≡ (if ltb a number then 1 else 0)
  Reach-conserved n number obj s r a =
      (Reach-copies r (running-populate obj number empty_pool)).1 a ∙ copies-start_of n number a obj

  others :
      (n a i j : ℕ) (f : ℕ → Thread T)
      → i < n
      → j < n
      → i ≢ j
      → held_of a (f i) + held_of a (f j) ≤ total (held_of a) n f
  unfolding occurrences
  others n a i j f h k d =
      let none_held : Thread T = record { phase = idle; held = [] } in
      ground (
        arith,
        ==_iff i j,
        total-update (held_of a) n f j none_held k,
        le-total (held_of a) n (update f j none_held) i h,
      )

  -- An object that one thread holds is held once, by no other thread, and does not lie in the pool.
  pub Reach-exclusive :
      (n number : ℕ) (obj : T) (s : System T) (a i j : ℕ)
      → Reach n (start_of obj number) s
      → i < n
      → j < n
      → i ≢ j
      → 0 < occurrences a (s.threads i).held
      → (occurrences a (s.threads i).held ≡ 1)
        × (occurrences a (s.threads j).held ≡ 0)
        × (occurrences a s.pool.objects ≡ 0)
  Reach-exclusive n number obj s a i j r h k d held =
      let all_there = Reach-conserved n number obj s r a in
      let both = others n a i j s.threads h k d in (ground arith, ground arith, ground arith)

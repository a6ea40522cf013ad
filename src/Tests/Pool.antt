-- ===== src/Tests/Pool.antt =====
-- Threads over a pool of two objects, and the theorems of the pool at their states.
use marc_fs.Base.{ℕ, zero, suc, ◌+◌, ◌<◌, ◌≡◌, refl, ◌≢◌, arith, length}
use marc_fs.Base.Families.{total}
use marc_fs.ObjectPool.{Object, ObjectPool, empty_pool, populate, initialize}
use marc_fs.ObjectPool.Threads.{
  woken, notifying, System, turn, placed, enter, start_of, Reach, here, later,
}
use marc_fs.ObjectPool.Counts.{occurrences}
use marc_fs.ObjectPool.Sharing.{held_of, Reach-conserved}
use marc_fs.ObjectPool.Waiting.{waits_justified}
use marc_fs.ObjectPool.Stuck.{IsStuck, all_wait_for_ever}

-- Each of the two threads takes an object, and the first asks for another.
abbrev both_hold : System ℕ
both_hold =
    let s : System ℕ = start_of 7 2 in
    let t = placed 0 s (turn s.pool (s.threads 0)) in placed 1 t (turn t.pool (t.threads 1))

abbrev one_asks : System ℕ
one_asks = placed 0 both_hold (turn both_hold.pool (both_hold.threads 0))

abbrev both_hold-Reach : Reach 2 (start_of 7 2) both_hold
unfolding populate turn marc_fs.ObjectPool.take_front
both_hold-Reach = later (later here (enter 0 (omega arith) refl)) (enter 1 (omega arith) refl)

abbrev one_asks-Reach : Reach 2 (start_of 7 2) one_asks
unfolding populate turn marc_fs.ObjectPool.take_front
one_asks-Reach = later both_hold-Reach (enter 0 (omega arith) refl)

Reach-conserved_example :
    occurrences 1 one_asks.pool.objects + total (held_of 1) 2 one_asks.threads ≡ 1
Reach-conserved_example = Reach-conserved 2 2 7 one_asks one_asks-Reach 1

quiet :
    (j : ℕ)
    → j < 2
    → ((one_asks.threads j).phase ≢ woken) × ((one_asks.threads j).phase ≢ notifying)
unfolding populate turn marc_fs.ObjectPool.take_front
quiet zero lt = (λ e. cc, λ e. cc)
quiet (suc zero) lt = (λ e. cc, λ e. cc)
quiet (suc (suc j)) lt = absurd (omega arith)

waits_justified_example : (j : ℕ) × (j < 2) × (0 < occurrences 1 (one_asks.threads j).held)
unfolding turn marc_fs.ObjectPool.take_front populate
waits_justified_example =
    waits_justified 2 2 7 one_asks 0 one_asks-Reach (omega arith) refl quiet 1 (omega arith)

-- As many threads as `main` makes clients.
all_wait_for_ever_example :
    (s : System ℕ) × Reach 25 (start_of 7 25) s
    × ((j : ℕ) → j < 25 → length (s.threads j).held ≡ 1)
    × ((t : System ℕ) → Reach 25 s t → IsStuck 25 t)
all_wait_for_ever_example = all_wait_for_ever 25 7

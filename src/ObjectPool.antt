-- ===== src/ObjectPool.antt =====
-- src/object_pool.h: the objects that are free, in the order in which they are given out. A pointer that
-- a caller holds returns its object when it goes out of scope.
pub mod Rounds
pub mod Threads
pub mod Counts
pub mod Sharing
pub mod Waiting
pub mod Stuck
use marc_fs.Base.{
  [], ℕ, zero, suc, ◌+◌, Bool, true, false, Option, none, some, List, ◌∷◌, ◌++◌, length, ltb,
  if◌then◌else◌,
}

-- What a pointer of the pool leads to: an object at its address.
pub record Object (T : Type 0) : Type 0 where
  pub address : ℕ
  pub value : T

-- `next_address` is the allocator's: it gives every address once.
pub record ObjectPool (T : Type 0) : Type 0 where
  pub objects : List (Object T)
  pub shutting_down : Bool
  pub next_address : ℕ

abbrev pub empty_pool : {T : Type 0} → ObjectPool T
empty_pool = record { objects = []; shutting_down = false; next_address = 0 }

module _ {T : Type 0} where
  -- `emplace_back`
  abbrev pub emplace_back : Object T → ObjectPool T → ObjectPool T
  emplace_back x p = record p { objects = p.objects ++ (x ∷ []) }

  abbrev pub populate_one : T → ObjectPool T → ObjectPool T
  populate_one obj p = record p {
    objects = p.objects ++ (record { address = p.next_address; value = obj } ∷ []);
    next_address = p.next_address + 1;
  }

  -- The loop, by the rounds that are left.
  unfoldable pub populate : T → ℕ → ObjectPool T → ObjectPool T
  populate obj zero p = p
  populate obj (suc n) p = populate obj n (populate_one obj p)

  -- `none`: the caller waits.
  unfoldable pub take_front : List (Object T) → ObjectPool T → Option (Object T × ObjectPool T)
  take_front [] p = none
  take_front (x ∷ xs) p = some (x, record p { objects = xs })

  abbrev pub acquire : ObjectPool T → Option (Object T × ObjectPool T)
  acquire p = take_front p.objects p

  unfoldable pub add : Object T → ObjectPool T → ObjectPool T
  add x p = emplace_back x p

  -- `ExternalDeleter`: the object goes back, unless the pool is being destroyed.
  unfoldable pub deleter : Object T → ObjectPool T → ObjectPool T
  deleter x p = if p.shutting_down then p else add x p

  -- `~ObjectPool`: the flag, and then the members, the pointers of the list with them.
  unfoldable pub destroy : ObjectPool T → ObjectPool T
  destroy p = record p { shutting_down = true; objects = [] }

  -- One round of `initialize`; the pointer goes out of scope at its end.
  unfoldable pub initialize_one : (T → T) → ObjectPool T → Option (ObjectPool T)
  initialize_one functor p = elim (acquire p) [
    | none ↦ none
    | some (x, q) ↦ some (deleter (record x { value = functor x.value }) q)
  ]

  -- The loop asks for the size of the pool before every round, which is counted by `i`. `none` without
  -- fuel, or where a round waits.
  unfoldable pub initialize_from : (T → T) → ℕ → ℕ → ObjectPool T → Option (ObjectPool T)
  initialize_from functor zero i p = none
  initialize_from functor (suc fuel) i p = elim (ltb i (length p.objects)) [
    | false ↦ some p
    | true ↦ elim (initialize_one functor p) [
      | none ↦ none
      | some q ↦ initialize_from functor fuel (i + 1) q
    ]
  ]

  unfoldable pub initialize : (T → T) → ObjectPool T → Option (ObjectPool T)
  initialize functor p = initialize_from functor (length p.objects + 1) 0 p

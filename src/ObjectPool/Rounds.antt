-- ===== src/ObjectPool/Rounds.antt =====
-- `initialize` takes the objects one after the other; each goes back to the end of the pool.
use marc_fs.Base.{
  ℕ, zero, suc, ◌+◌, ◌<◌, ◌≡◌, refl, subst, sym, ap, ◌∙◌, false, some, List, [], ◌∷◌, ◌++◌, map,
  arith, length, length-append, if◌then◌else◌,
}
use mathlib.Core.List.{append-nil, append_assoc}
use marc_fs.ObjectPool.{
  Object, ObjectPool, add, deleter, take_front, initialize_one, initialize_from, initialize,
}

module _ {T : Type 0} (functor : T → T) where
  abbrev pub applied : Object T → Object T
  applied x = record x { value = functor x.value }

  abbrev holding : ObjectPool T → List (Object T) → ObjectPool T
  holding p xs = record p { objects = xs }

  initialize_one_front :
      (p : ObjectPool T) (x : Object T) (xs : List (Object T))
      → p.shutting_down ≡ false
      → initialize_one functor (holding p (x ∷ xs)) ≡ some (holding p (xs ++ (applied x ∷ [])))
  unfolding initialize_one take_front deleter add
  initialize_one_front p x xs e =
      ap (λ down. some (if down then holding p xs else holding p (xs ++ (applied x ∷ [])))) e

  stopped :
      (fuel i : ℕ) (p : ObjectPool T)
      → i ≡ length p.objects
      → initialize_from functor (suc fuel) i p ≡ some p
  unfolding initialize_from
  stopped fuel i p e = ground arith

  gone_on :
      (fuel i : ℕ) (p q : ObjectPool T)
      → i < length p.objects
      → initialize_one functor p ≡ some q
      → initialize_from functor (suc fuel) i p ≡ initialize_from functor fuel (i + 1) q
  unfolding initialize_from
  gone_on fuel i p q h e = ground arith

  initialize_from_rest :
      (p : ObjectPool T) (xs ds : List (Object T)) (fuel : ℕ)
      → p.shutting_down ≡ false
      → length xs < fuel
      → initialize_from functor fuel (length ds) (holding p (xs ++ ds))
        ≡ some (holding p (ds ++ map applied xs))
  initialize_from_rest p xs ds zero e h = absurd (omega arith)
  initialize_from_rest p [] ds (suc fuel) e h =
      stopped fuel (length ds) (holding p ds) refl
      ∙ ap (λ ys. some (holding p ys)) (sym (append-nil ds))
  initialize_from_rest p (x ∷ xs) ds (suc fuel) e h =
      gone_on fuel (length ds) (holding p (x ∷ (xs ++ ds)))
        (holding p (xs ++ ds ++ (applied x ∷ []))) (omega (arith, length-append xs ds))
        (initialize_one_front p x (xs ++ ds) e)
      ∙ ((λ k.
            initialize_from functor fuel (sym (length-append ds (applied x ∷ [])) k)
              (holding p (append_assoc xs ds (applied x ∷ []) k)))
          ∙ (initialize_from_rest p xs (ds ++ (applied x ∷ [])) fuel e (omega arith)
              ∙ ap (λ ys. some (holding p ys)) (append_assoc ds (applied x ∷ []) (map applied xs))))

  -- `initialize` ends, having applied the function once to each object; none waits for another, and the
  -- order of the pool is as before.
  pub initialize-each :
      (p : ObjectPool T)
      → p.shutting_down ≡ false
      → initialize functor p ≡ some (record p { objects = map applied p.objects })
  unfolding initialize
  initialize-each p e =
      subst
        (λ xs.
          initialize_from functor (length p.objects + 1) 0 (holding p xs)
          ≡ some (holding p (map applied p.objects)))
        (append-nil p.objects)
        (initialize_from_rest p p.objects [] (length p.objects + 1) e (omega arith))

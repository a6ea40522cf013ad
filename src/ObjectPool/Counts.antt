-- ===== src/ObjectPool/Counts.antt =====
-- How often an address occurs among objects.
use marc_fs.Base.{ℕ, ◌+◌, ◌≡◌, List, [], ◌∷◌, ◌++◌, arith, ◌==◌, if◌then◌else◌}
use marc_fs.ObjectPool.{Object}

module _ {T : Type 0} where
  unfoldable pub occurrences : ℕ → List (Object T) → ℕ
  occurrences a [] = 0
  occurrences a (x ∷ xs) = (if x.address == a then 1 else 0) + occurrences a xs

  pub occurrences-append :
      (a : ℕ) (xs ys : List (Object T))
      → occurrences a (xs ++ ys) ≡ occurrences a xs + occurrences a ys
  unfolding occurrences
  occurrences-append a [] ys = omega arith
  occurrences-append a (x ∷ xs) ys = omega (arith, occurrences-append a xs ys)

-- ===== src/Base/Slices.antt =====
-- Byte buffers: the part of a buffer, a write into it, and its resizing, with their laws.
use marc_fs.Base.Lists.{
  length, take, drop, replicate, length-append, length-take, length-drop, length-replicate,
  take_all, drop_all, take-append-drop, drop-drop, take-append_length,
}
use Prim.Native.Nat.{ℕ, zero, suc, ◌+◌, ◌-◌, ◌≤◌, min}
use mathlib.Core.Path.{◌≡◌, refl, ap, sym, ◌∙◌}
use mathlib.Core.List.{List, [], ◌∷◌, ◌++◌}
use native.Mathlib.Omega.{arith}

module _ {ℓ} {A : Type ℓ} where
  -- At most `len` entries from `start` on.
  unfoldable pub slice : ℕ → ℕ → List A → List A
  slice start len xs = take len (drop start xs)

  -- `buf` put over the entries from `start` on.
  unfoldable pub overwrite : ℕ → List A → List A → List A
  overwrite start buf xs = take start xs ++ (buf ++ drop (start + length buf) xs)

  -- Exactly `n` entries, filled up by `a`.
  unfoldable pub resize : ℕ → A → List A → List A
  resize n a xs = take n xs ++ replicate (n - length xs) a

  pub length-slice :
      (start len : ℕ) (xs : List A) → length (slice start len xs) ≡ min len (length xs - start)
  unfolding slice
  length-slice start len xs = omega (arith, length-take len (drop start xs), length-drop start xs)

  pub length-resize : (n : ℕ) (a : A) (xs : List A) → length (resize n a xs) ≡ n
  unfolding resize
  length-resize n a xs = omega (
    arith,
    length-append (take n xs) (replicate (n - length xs) a),
    length-take n xs,
    length-replicate (n - length xs) a,
  )

  pub length-overwrite :
      (start : ℕ) (buf xs : List A)
      → start + length buf ≤ length xs
      → length (overwrite start buf xs) ≡ length xs
  unfolding overwrite
  length-overwrite start buf xs h = omega (
    arith,
    length-append (take start xs) (buf ++ drop (start + length buf) xs),
    length-append buf (drop (start + length buf) xs),
    length-take start xs,
    length-drop (start + length buf) xs,
  )

  pub slice_whole : (n : ℕ) (xs : List A) → length xs ≤ n → slice 0 n xs ≡ xs
  unfolding slice
  slice_whole n xs h = take_all n xs h

  pub slice_beyond : (start n : ℕ) (xs : List A) → length xs ≤ start → slice start n xs ≡ []
  unfolding slice
  slice_beyond start zero xs h = refl
  slice_beyond start (suc n) xs h = ap (take (suc n)) (drop_all start xs h)

  -- What was written is read back.
  pub slice-overwrite :
      (start : ℕ) (buf xs : List A)
      → start ≤ length xs
      → slice start (length buf) (overwrite start buf xs) ≡ buf
  unfolding slice overwrite
  slice-overwrite start buf xs h =
      ap (take (length buf)) (drop_front start (buf ++ drop (start + length buf) xs) xs h)
      ∙ take-append_length buf (drop (start + length buf) xs)
    where
      drop_front : (n : ℕ) (ys zs : List A) → n ≤ length zs → drop n (take n zs ++ ys) ≡ ys
      drop_front zero ys zs h = refl
      drop_front (suc n) ys [] h = absurd (omega arith)
      drop_front (suc n) ys (z ∷ zs) h = drop_front n ys zs (omega arith)

  -- A first block and the rest.
  pub slice-split :
      (start n : ℕ) (xs : List A) → slice start n xs ++ drop (start + n) xs ≡ drop start xs
  unfolding slice
  slice-split start n xs =
      ap (λ r. take n (drop start xs) ++ r) (sym (drop-drop n start xs))
      ∙ take-append-drop n (drop start xs)

  take_add : (a b : ℕ) (xs : List A) → take (a + b) xs ≡ take a xs ++ take b (drop a xs)
  take_add zero b xs = let e : 0 + b ≡ b = omega arith in ap (λ k. take k xs) e
  take_add (suc a) b [] = take_nil (suc a + b) ∙ sym (take_nil b)
    where
      take_nil : (n : ℕ) → take {A = A} n [] ≡ []
      take_nil zero = refl
      take_nil (suc n) = refl
  take_add (suc a) b (x ∷ xs) =
      let e : suc a + b ≡ suc (a + b) = omega arith in
      ap (λ k. take k (x ∷ xs)) e ∙ ap (λ r. x ∷ r) (take_add a b xs)

  -- A slice is two that follow each other.
  pub slice-append :
      (start a b : ℕ) (xs : List A)
      → slice start (a + b) xs ≡ slice start a xs ++ slice (start + a) b xs
  unfolding slice
  slice-append start a b xs =
      take_add a b (drop start xs)
      ∙ ap (λ r. take a (drop start xs) ++ take b r) (drop-drop a start xs)

  -- A slice that reaches beyond the end stops there.
  pub slice_to_end :
      (start n : ℕ) (xs : List A)
      → length xs ≤ start + n
      → slice start n xs ≡ slice start (length xs - start) xs
  unfolding slice
  slice_to_end start n xs h =
      take_all n (drop start xs) (omega (arith, length-drop start xs))
      ∙ sym (take_all (length xs - start) (drop start xs) (omega (arith, length-drop start xs)))

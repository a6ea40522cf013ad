-- ===== src/Retry/Prompt.antt =====
-- Code that does not wait for ever.
use marc_fs.Base.{
  ℕ, zero, suc, ◌-◌, ◌≤◌, ◌≡◌, refl, inl, inr, Bool, true, false, arith, leb, ◌==◌, if◌then◌else◌,
  Bool-cases, ℤ, mail, failure, undefined, blocked, Result, ok, fail, M, bind_result, ◌>>=◌,
}
use marc_fs.Retry.{Pool, leased, give_back, after_try, retrying, do_with_retry}
use marc_fs.Retry.Laws.{IsLawfulPool, leased-KeepsIdle}

abbrev pub waits : {A : Type 0} → Result A → Bool
waits (ok a) = false
waits (fail (mail code)) = false
waits (fail failure) = false
waits (fail undefined) = false
waits (fail blocked) = true

pub bind_result-waits :
    {S A B : Type 0} (k : A → M S B) (r : Result A × S)
    → waits r.0 ≡ false
    → ((a : A) (s : S) → r ≡ (ok a, s) → waits (k a s).0 ≡ false)
    → waits (bind_result k r).0 ≡ false
bind_result-waits k (ok a, s) h g = g a s refl
bind_result-waits k (fail (mail code), s) h g = refl
bind_result-waits k (fail failure, s) h g = refl
bind_result-waits k (fail undefined, s) h g = refl
bind_result-waits k (fail blocked, s) h g = h

pub if-waits :
    {S A : Type 0} (b : Bool) (x y : Result A × S)
    → waits x.0 ≡ false
    → waits y.0 ≡ false
    → waits (if b then x else y).0 ≡ false
if-waits true x y h g = h
if-waits false x y h g = g

-- In no state does the code wait for ever.
abbrev pub IsPrompt : {S A : Type 0} → M S A → Type 0
IsPrompt m = (s : _) → waits (m s).0 ≡ false

pub >>=-IsPrompt :
    {S A B : Type 0} (m : M S A) (k : A → M S B)
    → IsPrompt m
    → ((a : A) → IsPrompt (k a))
    → IsPrompt (m >>= k)
>>=-IsPrompt m k h g s = bind_result-waits k (m s) (h s) (λ a t e. g a t)

module _ {T : Type 0} (P : Pool T) (law : IsLawfulPool P) (n : ℕ) (what : M T ℤ)
    (prompt : (t : T) → n ≤ P.idle t → waits (what t).0 ≡ false)
    (keeps : (t : T) → P.idle (what t).1 ≡ P.idle t) where
  leased_prompt : (t : T) → suc n ≤ P.idle t → waits (leased P what t).0 ≡ false
  unfolding leased give_back
  leased_prompt t h =
      let free : P.idle t == 0 ≡ false = ground arith in
      let left : n ≤ P.idle (P.set_idle (P.idle t - 1) t) = omega (arith, law (P.idle t - 1) t) in
      rw free (prompt (P.set_idle (P.idle t - 1) t) left)

  after_try_prompt :
      (again : M T ℤ) (r : Result ℤ × T)
      → waits r.0 ≡ false
      → waits (again r.1).0 ≡ false
      → waits (after_try P again r).0 ≡ false
  unfolding after_try
  after_try_prompt again (ok z, t) h g = refl
  after_try_prompt again (fail (mail code), t) h g = elim (Bool-cases (leb 500 code)) [
    | inl big ↦ rw big g
    | inr small ↦ rw small refl
  ]
  after_try_prompt again (fail failure, t) h g = refl
  after_try_prompt again (fail undefined, t) h g = refl
  after_try_prompt again (fail blocked, t) h g = h

  retrying_prompt : (k : ℕ) (t : T) → suc n ≤ P.idle t → waits (retrying P k what t).0 ≡ false
  unfolding retrying
  retrying_prompt zero t h = refl
  retrying_prompt (suc k) t h =
      let same : P.idle (leased P what t).1 ≡ P.idle t = leased-KeepsIdle P law what keeps t in
      after_try_prompt (retrying P k what) (leased P what t) (leased_prompt t h)
        (retrying_prompt k (leased P what t).1 (omega (arith, same)))

  -- A job that does not wait for ever while `n` clients are idle, and gives back what it takes, does
  -- not when it is retried while one more is idle.
  pub do_with_retry_prompt : (t : T) → suc n ≤ P.idle t → waits (do_with_retry P what t).0 ≡ false
  unfolding do_with_retry
  do_with_retry_prompt t h = retrying_prompt 3 t h

-- ===== src/Retry/Invariants.antt =====
-- What `doWithRetry` keeps of the state, whatever the job answers.
use marc_fs.Base.{
  ℕ, zero, suc, ◌-◌, inl, inr, leb, ◌==◌, Bool-cases, ℤ, mail, failure, undefined, blocked, Result,
  ok, fail, M,
}
use marc_fs.Retry.{Pool, leased, give_back, after_try, retrying, do_with_retry}

module _ {ℓ} {T : Type 0} (P : Pool T) (Q : T → Type ℓ) (what : M T ℤ)
    (job : (t : T) → Q t → Q (what t).1) (counts : (n : ℕ) (t : T) → Q t → Q (P.set_idle n t)) where
  leased_keeps : (t : T) → Q t → Q (leased P what t).1
  unfolding leased give_back
  leased_keeps t q = elim (Bool-cases (P.idle t == 0)) [
    | inl e ↦ rw e q
    | inr e ↦ rw e (counts _ _ (job _ (counts (P.idle t - 1) t q)))
  ]

  after_try_keeps :
      (again : M T ℤ) (r : Result ℤ × T)
      → ((t : T) → Q t → Q (again t).1)
      → Q r.1
      → Q (after_try P again r).1
  unfolding after_try
  after_try_keeps again (ok z, t) h q = q
  after_try_keeps again (fail (mail code), t) h q = elim (Bool-cases (leb 500 code)) [
    | inl big ↦ rw big (h t q)
    | inr small ↦ rw small q
  ]
  after_try_keeps again (fail failure, t) h q = q
  after_try_keeps again (fail undefined, t) h q = q
  after_try_keeps again (fail blocked, t) h q = q

  retrying_keeps : (n : ℕ) (t : T) → Q t → Q (retrying P n what t).1
  unfolding retrying
  retrying_keeps zero t q = q
  retrying_keeps (suc n) t q =
      after_try_keeps (retrying P n what) (leased P what t) (retrying_keeps n) (leased_keeps t q)

  -- What the job keeps, however often it is tried, and what does not hang on the number of idle
  -- clients, the retried job keeps.
  pub do_with_retry_keeps : (t : T) → Q t → Q (do_with_retry P what t).1
  unfolding do_with_retry
  do_with_retry_keeps t q = retrying_keeps 3 t q

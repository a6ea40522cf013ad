-- ===== src/Retry/Laws.antt =====
-- What a caller of `doWithRetry` can count on.
use marc_fs.Base.{
  ℕ, zero, suc, ◌+◌, ◌-◌, ◌≤◌, ◌<◌, ◌≡◌, refl, ap, ◌∙◌, inl, inr, Bool, true, false, arith, leb,
  ◌==◌, if◌then◌else◌, Bool-cases, ℤ, pos, mail, failure, undefined, blocked, Result, ok, fail, M,
}
use marc_fs.Retry.Errno
use marc_fs.Retry.{Pool, give_back, leased, after_try, retrying, do_with_retry}

abbrev pub IsLawfulPool : {T : Type 0} → Pool T → Type 0
IsLawfulPool P = (n : ℕ) (t : _) → P.idle (P.set_idle n t) ≡ n

abbrev pub is_mail : Result ℤ → Bool
is_mail (fail (mail code)) = true
is_mail _ = false

module _ {T : Type 0} (P : Pool T) where
  after_try-not_mail :
      (again : M T ℤ) (r : Result ℤ × T)
      → ((t : T) → is_mail (again t).0 ≡ false)
      → is_mail (after_try P again r).0 ≡ false
  unfolding after_try
  after_try-not_mail again (ok r, t) h = refl
  after_try-not_mail again (fail (mail code), t) h = ground (arith, h t)
  after_try-not_mail again (fail _, t) h = refl

  retrying-not_mail : (n : ℕ) (what : M T ℤ) (t : T) → is_mail (retrying P n what t).0 ≡ false
  unfolding retrying
  retrying-not_mail zero what t = refl
  retrying-not_mail (suc n) what t =
      after_try-not_mail (retrying P n what) (leased P what t) (retrying-not_mail n what)

  -- The state after `n` tries in a row that ended in a server error.
  pub data Failures (what : M T ℤ) (t : T) : ℕ → T → Type 0 where
    start : Failures what t 0 t
    more :
        {n : ℕ} {u : T} (code : ℕ)
        → Failures what t n u
        → (leased P what u).0 ≡ fail (mail code)
        → 500 ≤ code
        → Failures what t (suc n) (leased P what u).1

  retrying_more :
      (k : ℕ) (what : M T ℤ) (u : T) (code : ℕ)
      → (leased P what u).0 ≡ fail (mail code)
      → 500 ≤ code
      → retrying P (suc k) what u ≡ retrying P k what (leased P what u).1
  unfolding retrying
  retrying_more k what u code e h =
      let shown : leb 500 code ≡ true = ground arith in
      (λ i. after_try P (retrying P k what) (e i, (leased P what u).1)) ∙ rw shown

  Failures-retrying :
      {what : M T ℤ} {t : T} (k : ℕ) {n : ℕ} {u : T}
      → Failures what t n u
      → retrying P (n + k) what t ≡ retrying P k what u
  Failures-retrying {what} {t} k start =
      let e : 0 + k ≡ k = omega arith in ap (λ m. retrying P m what t) e
  Failures-retrying {what} {t} k (more {n = n} {u = u} code f e h) =
      let shift : suc n + k ≡ n + suc k = omega arith in
      ap (λ m. retrying P m what t) shift
      ∙ (Failures-retrying (suc k) f ∙ retrying_more k what u code e h)

  -- A try with an idle client runs the job with one idle client less and gives it back.
  pub leased_steps :
      (what : M T ℤ) (t u : T) (r : Result ℤ)
      → 0 < P.idle t
      → what (P.set_idle (P.idle t - 1) t) ≡ (r, u)
      → leased P what t ≡ (r, P.set_idle (suc (P.idle u)) u)
  unfolding leased give_back
  leased_steps what t u r some_idle e =
      let free : P.idle t == 0 ≡ false = ground arith in
      ap (λ b. if b then (fail blocked, t) else give_back P (what (P.set_idle (P.idle t - 1) t)))
        free
      ∙ ap (give_back P) e

  -- Whatever the job is, the retry loop lets no `MailApiException` out.
  pub do_with_retry-not_mail : (what : M T ℤ) (t : T) → is_mail (do_with_retry P what t).0 ≡ false
  unfolding do_with_retry
  do_with_retry-not_mail what t = retrying-not_mail 3 what t

  Failures-do_with_retry :
      {what : M T ℤ} {t u : T} (n : ℕ)
      → Failures what t n u
      → n ≤ 3
      → do_with_retry P what t ≡ retrying P (3 - n) what u
  unfolding do_with_retry
  Failures-do_with_retry {what} {t} n f h =
      let e : 3 ≡ n + (3 - n) = omega arith in
      ap (λ m. retrying P m what t) e ∙ Failures-retrying (3 - n) f

  retrying_last :
      (k : ℕ) (what : M T ℤ) (u : T)
      → 0 < k
      → retrying P k what u ≡ after_try P (retrying P (k - 1) what) (leased P what u)
  unfolding retrying
  retrying_last zero what u h = absurd (omega arith)
  retrying_last (suc k) what u h =
      let e : k ≡ suc k - 1 = omega arith in
      ap (λ m. after_try P (retrying P m what) (leased P what u)) e

  -- After at most two server errors in a row, the first try that returns gives the answer and the
  -- state.
  pub do_with_retry_answer :
      {what : M T ℤ} {t u : T} (n : ℕ) (r : ℤ)
      → Failures what t n u
      → n < 3
      → (leased P what u).0 ≡ ok r
      → do_with_retry P what t ≡ (ok r, (leased P what u).1)
  unfolding after_try
  do_with_retry_answer {what} {t} {u} n r f lt e =
      Failures-do_with_retry n f (omega arith)
      ∙ (retrying_last (3 - n) what u (omega arith) ∙ λ i.
          after_try P (retrying P (3 - n - 1) what) (e i, (leased P what u).1))

  -- After at most two server errors in a row, a try that is refused with a code below 500 ends the
  -- loop with -EIO.
  pub do_with_retry_denied :
      {what : M T ℤ} {t u : T} (n code : ℕ)
      → Failures what t n u
      → n < 3
      → code < 500
      → (leased P what u).0 ≡ fail (mail code)
      → do_with_retry P what t ≡ (ok Errno.eio, (leased P what u).1)
  unfolding after_try leased
  do_with_retry_denied {what} {t} {u} n code f lt small e =
      let shown : leb 500 code ≡ false = ground arith in
      Failures-do_with_retry n f (omega arith)
      ∙ (retrying_last (3 - n) what u (omega arith)
          ∙ ((λ i. after_try P (retrying P (3 - n - 1) what) (e i, (leased P what u).1))
              ∙ rw shown))

  -- Three server errors in a row end the loop with -EINVAL, and the job is not tried a fourth time.
  pub do_with_retry_exhausted :
      {what : M T ℤ} {t u : T} → Failures what t 3 u → do_with_retry P what t ≡ (ok Errno.einval, u)
  unfolding retrying
  do_with_retry_exhausted f = Failures-do_with_retry 3 f (omega arith)

  module _ (law : IsLawfulPool P) where
    -- The job leaves as many clients idle as it found.
    abbrev pub KeepsIdle : {A : Type 0} → M T A → Type 0
    KeepsIdle what = (t : T) → P.idle (what t).1 ≡ P.idle t

    pub leased-KeepsIdle : (what : M T ℤ) → KeepsIdle what → KeepsIdle (leased P what)
    unfolding leased
    leased-KeepsIdle what keep t = ground (
      arith,
      keep (P.set_idle (P.idle t - 1) t),
      law (P.idle t - 1) t,
      law (suc (P.idle (what (P.set_idle (P.idle t - 1) t)).1))
          (what (P.set_idle (P.idle t - 1) t)).1,
    )

    after_try-KeepsIdle :
        (again : M T ℤ) (r : Result ℤ × T)
        → KeepsIdle again
        → P.idle (after_try P again r).1 ≡ P.idle r.1
    unfolding after_try
    after_try-KeepsIdle again (ok r, t) h = refl
    after_try-KeepsIdle again (fail (mail code), t) h = ground (arith, h t)
    after_try-KeepsIdle again (fail _, t) h = refl

    retrying-KeepsIdle : (n : ℕ) (what : M T ℤ) → KeepsIdle what → KeepsIdle (retrying P n what)
    unfolding retrying
    retrying-KeepsIdle zero what keep t = refl
    retrying-KeepsIdle (suc n) what keep t =
        after_try-KeepsIdle (retrying P n what) (leased P what t) (retrying-KeepsIdle n what keep)
        ∙ leased-KeepsIdle what keep t

    -- Whatever happens, also when an exception passes through, every client is back in the pool.
    pub do_with_retry-KeepsIdle : (what : M T ℤ) → KeepsIdle what → KeepsIdle (do_with_retry P what)
    unfolding do_with_retry
    do_with_retry-KeepsIdle what keep = retrying-KeepsIdle 3 what keep

  module _ {ℓ} (Q : T → Type ℓ) (what : M T ℤ)
      (ensures : (t : T) → (what t).0 ≡ ok (pos 0) → Q (what t).1)
      (counts : (n : ℕ) (t : T) → Q t → Q (P.set_idle n t)) where
    leased_post : (t : T) → (leased P what t).0 ≡ ok (pos 0) → Q (leased P what t).1
    unfolding leased
    leased_post t h = elim (Bool-cases (P.idle t == 0)) [
      | inl e ↦ absurd (ground arith)
      | inr e ↦
          let u = P.set_idle (P.idle t - 1) t in
          let done : (what u).0 ≡ ok (pos 0) = ground arith in
          rw e (counts (suc (P.idle (what u).1)) (what u).1 (ensures u done))
    ]

    after_try_post :
        (again : M T ℤ) (r : Result ℤ × T)
        → ((t : T) → (again t).0 ≡ ok (pos 0) → Q (again t).1)
        → (r.0 ≡ ok (pos 0) → Q r.1)
        → (after_try P again r).0 ≡ ok (pos 0)
        → Q (after_try P again r).1
    unfolding after_try
    after_try_post again (ok z, t) g h e = h e
    after_try_post again (fail (mail code), t) g h e = elim (Bool-cases (leb 500 code)) [
      | inl big ↦ rw big (g t (ground arith))
      | inr small ↦ absurd (ground arith)
    ]
    after_try_post again (fail failure, t) g h e = absurd (ground arith)
    after_try_post again (fail undefined, t) g h e = absurd (ground arith)
    after_try_post again (fail blocked, t) g h e = absurd (ground arith)

    retrying_post :
        (n : ℕ) (t : T) → (retrying P n what t).0 ≡ ok (pos 0) → Q (retrying P n what t).1
    unfolding retrying
    retrying_post zero t e = absurd (ground arith)
    retrying_post (suc n) t e =
        after_try_post (retrying P n what) (leased P what t) (retrying_post n) (leased_post t) e

    -- What holds whenever the job answers 0 holds when the retried job does.
    pub do_with_retry_post :
        (t : T) → (do_with_retry P what t).0 ≡ ok (pos 0) → Q (do_with_retry P what t).1
    unfolding do_with_retry
    do_with_retry_post t e = retrying_post 3 t e

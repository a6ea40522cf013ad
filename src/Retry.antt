-- ===== src/Retry.antt =====
-- fuse_hooks.cpp, `doWithRetry`: a job with a client of the pool, tried again while the server fails.
pub mod Errno
pub mod Laws
pub mod Once
pub mod Prompt
pub mod Invariants
use marc_fs.Base.{
  ℕ, zero, suc, ◌-◌, leb, ◌==◌, if◌then◌else◌, ℤ, mail, failure, undefined, blocked, Result, ok,
  fail, M,
}

-- The part of a state that the pool is: the number of clients that are idle.
pub record Pool (T : Type 0) : Type 0 where
  pub idle : T → ℕ
  pub set_idle : ℕ → T → T

module _ {T : Type 0} (P : Pool T) where
  -- The client goes back when it leaves its scope, by a return or by an exception.
  give_back : Result ℤ × T → Result ℤ × T
  give_back (r, t) = (r, P.set_idle (suc (P.idle t)) t)

  -- `acquire` waits for an idle client; nobody else runs who could give one back.
  unfoldable pub leased : M T ℤ → M T ℤ
  unfolding give_back
  leased what t =
      if P.idle t == 0 then (fail blocked, t) else give_back (what (P.set_idle (P.idle t - 1) t))

  after_try : M T ℤ → Result ℤ × T → Result ℤ × T
  after_try again (ok r, t) = (ok r, t)
  after_try again (fail (mail code), t) = if leb 500 code then again t else (ok Errno.eio, t)
  after_try again (fail failure, t) = (fail failure, t)
  after_try again (fail undefined, t) = (fail undefined, t)
  after_try again (fail blocked, t) = (fail blocked, t)

  unfoldable pub retrying : ℕ → M T ℤ → M T ℤ
  unfolding after_try
  retrying zero what t = (ok Errno.einval, t)
  retrying (suc retries) what t = after_try (retrying retries what) (leased what t)

  unfoldable pub do_with_retry : M T ℤ → M T ℤ
  do_with_retry = retrying 3

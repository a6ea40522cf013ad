-- ===== src/Retry/Once.antt =====
-- A job that answers at its first try.
use marc_fs.Base.{suc, ◌-◌, ◌<◌, ◌≡◌, ap, ◌∙◌, ℤ, ok, M, arith}
use marc_fs.Retry.{Pool, do_with_retry}
use marc_fs.Retry.Laws.{start, leased_steps, do_with_retry_answer}

-- With an idle client, the job's first answer is the loop's, and the client is back.
pub do_with_retry-first :
    {T : Type 0} (P : Pool T) (what : M T ℤ) (t u : T) (z : ℤ)
    → 0 < P.idle t
    → what (P.set_idle (P.idle t - 1) t) ≡ (ok z, u)
    → do_with_retry P what t ≡ (ok z, P.set_idle (suc (P.idle u)) u)
do_with_retry-first P what t u z some_idle e =
    let try = leased_steps P what t u (ok z) some_idle e in
    do_with_retry_answer P 0 z start (omega arith) (ap (λ r. r.0) try) ∙ ap (λ r. (ok z, r.1)) try

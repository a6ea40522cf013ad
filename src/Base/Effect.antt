-- ===== src/Base/Effect.antt =====
-- Code that changes state and may throw: a state passed along, kept also where the code throws.
use Prim.Native.Nat.{ℕ}

-- What leaves a function other than by `return`. A `MailApiException` carries its response code;
-- its text is only printed. `undefined` stands for undefined behaviour, and `blocked` for a wait
-- that nothing ends.
pub data Exc : Type 0 where
  mail : ℕ → Exc
  failure : Exc
  undefined : Exc
  blocked : Exc

pub data Result {ℓ} (A : Type ℓ) : Type ℓ where
  ok : A → Result A
  fail : Exc → Result A

abbrev pub M : Type 0 → Type 0 → Type 0
M S A = S → Result A × S

module _ {S : Type 0} where
  abbrev pub pure : {A : Type 0} → A → M S A
  pure a s = (ok a, s)

  abbrev pub throw : {A : Type 0} → Exc → M S A
  throw e s = (fail e, s)

  abbrev pub bind_result : {A B : Type 0} → (A → M S B) → Result A × S → Result B × S
  bind_result f (ok a, s) = f a s
  bind_result f (fail e, s) = (fail e, s)

  infixl 5 ◌>>=◌ ◌>>◌
  abbrev pub ◌>>=◌ : {A B : Type 0} → M S A → (A → M S B) → M S B
  ◌>>=◌ m f s = bind_result f (m s)

  abbrev pub ◌>>◌ : {B : Type 0} → M S (Unit {0}) → M S B → M S B
  m >> k = m >>= λ _. k

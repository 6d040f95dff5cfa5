-- ===== src/Exec/Returns.antt =====
-- What an action returns, whatever it did before: a rule for each way to build an action.
use sunbeam_migrate.Prelude.{◌≡◌, refl, Bool, true, false, Option, none, some, if◌then◌else◌}
use sunbeam_migrate.Exec.{
  Error, Result, ok, err, Exec, pure, raise, lift, handle, continue, outcome, try_except,
  try_finally, if_found, ◌>>=◌,
}

pub record Returns {ℓ} {S A : Type ℓ} (P : A → Type ℓ) (m : Exec S A) : Type ℓ where
  pub holds : (s : S) {a : A} → (m s).0 ≡ ok a → P a

outcome-value {ℓ} :
    {A : Type ℓ} (f : Result (Unit {ℓ})) (r : Result A) {a : A} → outcome f r ≡ ok a → r ≡ ok a
outcome-value (ok done) r e = e
outcome-value (err c) r e = absurd (cc e)

module _ {ℓ} {S A : Type ℓ} (P : A → Type ℓ) where
  pub Returns-lift : (r : Result A) → ((a : A) → r ≡ ok a → P a) → Returns P (lift {S = S} r)
  Returns-lift r k = record { holds = λ s {a} e. k a e }

  pub Returns-pure : (a : A) → P a → Returns P (pure {S = S} a)
  Returns-pure a p = Returns-lift (ok a) λ b e. let same : a ≡ b = cc e in rw same at p

  pub Returns-raise : (e : Error) → Returns P (raise {S = S} e)
  Returns-raise e = Returns-lift (err e) λ b c. absurd (cc c)

  pub Returns-if :
      (b : Bool) (m n : Exec S A)
      → (b ≡ true → Returns P m)
      → (b ≡ false → Returns P n)
      → Returns P (if b then m else n)
  Returns-if true m n first second = first refl
  Returns-if false m n first second = second refl

  handle-value :
      (h : Error → Exec S A)
      → ((e : Error) → Returns P (h e))
      → (r : Result A) (s : S) {a : A} → ((b : A) → r ≡ ok b → P b)
      → (handle h r s).0 ≡ ok a
      → P a
  handle-value h k (ok b) s {a} p e = p a e
  handle-value h k (err c) s p e = (k c).holds s e

  pub Returns-try_except :
      (m : Exec S A) (h : Error → Exec S A)
      → Returns P m
      → ((e : Error) → Returns P (h e))
      → Returns P (try_except m h)
  Returns-try_except m h p k = record {
    holds = λ s e. handle-value h k (m s).0 (m s).1 (λ b. p.holds s) e;
  }

  -- The value is the block's, where the `finally` block raises nothing.
  pub Returns-try_finally :
      (m : Exec S A) (last : Exec S (Unit {ℓ})) → Returns P m → Returns P (try_finally m last)
  Returns-try_finally m last p = record {
    holds = λ s e. p.holds s (outcome-value (last (m s).1).0 (m s).0 e);
  }

module _ {ℓ} {S A B : Type ℓ} (P : B → Type ℓ) where
  continue-value :
      (Q : A → Type ℓ) (f : A → Exec S B)
      → ((a : A) → Q a → Returns P (f a))
      → (r : Result A) (s : S) {b : B} → ((a : A) → r ≡ ok a → Q a)
      → (continue f r s).0 ≡ ok b
      → P b
  continue-value Q f k (ok a) s q e = (k a (q a refl)).holds s e
  continue-value Q f k (err c) s q e = absurd (cc e)

  -- The rest may use what the first step returns.
  pub Returns-bind :
      (Q : A → Type ℓ) (m : Exec S A) (f : A → Exec S B)
      → Returns Q m
      → ((a : A) → Q a → Returns P (f a))
      → Returns P (m >>= f)
  Returns-bind Q m f q k = record {
    holds = λ s e. continue-value Q f k (m s).0 (m s).1 (λ a. q.holds s) e;
  }

  -- The first step does not matter.
  pub Returns-after :
      (m : Exec S A) (f : A → Exec S B) → ((a : A) → Returns P (f a)) → Returns P (m >>= f)
  Returns-after m f k = Returns-bind (λ a. Unit) m f (record { holds = λ s e. tt }) (λ a q. k a)

  pub Returns-if_found :
      (o : Option A) (f : A → Exec S B) (m : Exec S B)
      → ((a : A) → o ≡ some a → Returns P (f a))
      → Returns P m
      → Returns P (if_found o f m)
  Returns-if_found (some a) f m found missing = found a refl
  Returns-if_found none f m found missing = missing

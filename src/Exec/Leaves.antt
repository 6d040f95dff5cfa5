-- ===== src/Exec/Leaves.antt =====
-- Where an action ends: a predicate on the state that holds at its end, however it ended and
-- whatever the state was at its start.
use sunbeam_migrate.Prelude.{◌≡◌, refl}
use sunbeam_migrate.Exec.{
  Error, Result, ok, err, Exec, handle, continue, try_except, try_finally, ◌>>=◌,
}
use sunbeam_migrate.Exec.Preserves.{Preserves}

pub record Leaves {ℓ} {S A : Type ℓ} (P : S → Type ℓ) (m : Exec S A) : Type ℓ where
  pub at_end : (s : S) → P (m s).1

-- The same where the action raised.
pub record Fails {ℓ} {S A : Type ℓ} (P : S → Type ℓ) (m : Exec S A) : Type ℓ where
  pub at_error : (s : S) (e : Error) → (m s).0 ≡ err e → P (m s).1

module _ {ℓ} {S A : Type ℓ} (P : S → Type ℓ) where
  handled :
      (h : Error → Exec S A)
      → ((e : Error) → Leaves P (h e))
      → (r : Result A) (s : S) (e : Error) → (handle h r s).0 ≡ err e
      → P (handle h r s).1
  handled h k (ok a) s e f = absurd (cc f)
  handled h k (err c) s e f = (k c).at_end s

  pub Fails-try_except :
      (m : Exec S A) (h : Error → Exec S A)
      → ((e : Error) → Leaves P (h e))
      → Fails P (try_except m h)
  Fails-try_except m h k = record { at_error = λ s e f. handled h k (m s).0 (m s).1 e f }

  pub Leaves-try_finally :
      (m : Exec S A) (last : Exec S (Unit {ℓ})) → Leaves P last → Leaves P (try_finally m last)
  Leaves-try_finally m last p = record { at_end = λ s. p.at_end (m s).1 }

module _ {ℓ} {S A B : Type ℓ} (P : S → Type ℓ) where
  continued :
      (f : A → Exec S B)
      → ((a : A) → Leaves P (f a))
      → (r : Result A) (s : S) → ((e : Error) → r ≡ err e → P s)
      → P (continue f r s).1
  continued f k (ok a) s p = (k a).at_end s
  continued f k (err e) s p = p e refl

  -- The rest ends there, and so does the first step where it raises.
  pub Leaves-bind :
      (m : Exec S A) (f : A → Exec S B)
      → Fails P m
      → ((a : A) → Leaves P (f a))
      → Leaves P (m >>= f)
  Leaves-bind m f p k = record { at_end = λ s. continued f k (m s).0 (m s).1 (p.at_error s) }

  kept :
      (f : A → Exec S B)
      → ((a : A) → Preserves P (f a))
      → (r : Result A) (s : S) → P s
      → P (continue f r s).1
  kept f k (ok a) s p = (k a).after s p
  kept f k (err e) s p = p

  -- The first step ends there, and the rest stays there.
  pub Leaves-first :
      (m : Exec S A) (f : A → Exec S B)
      → Leaves P m
      → ((a : A) → Preserves P (f a))
      → Leaves P (m >>= f)
  Leaves-first m f p k = record { at_end = λ s. kept f k (m s).0 (m s).1 (p.at_end s) }

-- ===== src/Exec/Same.antt =====
-- Actions that do the same from every state: a rule for each way to build an action.
use sunbeam_migrate.Prelude.{
  ◌≡◌, refl, ap, ◌∙◌, Bool, true, false, Option, some, none, if◌then◌else◌,
}
use sunbeam_migrate.Exec.{
  Error, Result, ok, err, Exec, handle, continue, try_except, if_found, ◌>>=◌,
}
use sunbeam_migrate.Exec.Returns.{Returns}

pub record Same {ℓ} {S A : Type ℓ} (m n : Exec S A) : Type ℓ where
  pub runs : (s : S) → m s ≡ n s

module _ {ℓ} {S A : Type ℓ} where
  pub Same-refl : (m : Exec S A) → Same m m
  Same-refl m = record { runs = λ s. refl }

  pub Same-if :
      (b : Bool) (m m' n n' : Exec S A)
      → (b ≡ true → Same m m')
      → (b ≡ false → Same n n')
      → Same (if b then m else n) (if b then m' else n')
  Same-if true m m' n n' first second = first refl
  Same-if false m m' n n' first second = second refl

  pub Same-try_except :
      (m n : Exec S A) (h : Error → Exec S A) → Same m n → Same (try_except m h) (try_except n h)
  Same-try_except m n h same = record { runs = λ s. ap (λ x. handle h x.0 x.1) (same.runs s) }

module _ {ℓ} {S A B : Type ℓ} where
  continued :
      (Q : A → Type ℓ) (f g : A → Exec S B)
      → ((a : A) → Q a → Same (f a) (g a))
      → (r : Result A) (s : S) → ((a : A) → r ≡ ok a → Q a)
      → continue f r s ≡ continue g r s
  continued Q f g k (ok a) s q = (k a (q a refl)).runs s
  continued Q f g k (err e) s q = refl

  -- The same first step; the rest may use what it returns.
  pub Same-after :
      (Q : A → Type ℓ) (m : Exec S A) (f g : A → Exec S B)
      → Returns Q m
      → ((a : A) → Q a → Same (f a) (g a))
      → Same (m >>= f) (m >>= g)
  Same-after Q m f g q k = record { runs = λ s. continued Q f g k (m s).0 (m s).1 (λ a. q.holds s) }

  pub Same-bind :
      (m n : Exec S A) (f g : A → Exec S B)
      → Same m n
      → ((a : A) → Same (f a) (g a))
      → Same (m >>= f) (n >>= g)
  Same-bind m n f g same k = record {
    runs = λ s.
        ap (λ x. continue f x.0 x.1) (same.runs s)
        ∙ continued (λ a. Unit) f g (λ a q. k a) (n s).0 (n s).1 (λ a e. tt);
  }

  pub Same-if_found :
      (o : Option A) (f g : A → Exec S B) (m n : Exec S B)
      → ((a : A) → Same (f a) (g a))
      → Same m n
      → Same (if_found o f m) (if_found o g n)
  Same-if_found (some a) f g m n found missing = found a
  Same-if_found none f g m n found missing = missing

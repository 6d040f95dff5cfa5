-- ===== src/Exec/Succeeds.antt =====
-- Actions that return from a state: a rule for each way to build an action.
use sunbeam_migrate.Prelude.{◌≡◌, refl, ap, ◌∙◌, Bool, false, if◌then◌else◌}
use sunbeam_migrate.Exec.{Error, ok, Exec, pure, handle, continue, try_except, ◌>>=◌}

pub record Succeeds {ℓ} {S A : Type ℓ} (Q : A → S → Type ℓ) (m : Exec S A) (s : S) : Type ℓ where
  pub value : A
  pub final : S
  pub runs : m s ≡ (ok value, final)
  pub holds : Q value final

module _ {ℓ} {S A : Type ℓ} (Q : A → S → Type ℓ) where
  pub Succeeds-pure : (a : A) (s : S) → Q a s → Succeeds Q (pure a) s
  Succeeds-pure a s q = record { value = a; final = s; runs = refl; holds = q }

  pub Succeeds-else :
      (b : Bool) (m n : Exec S A) (s : S)
      → b ≡ false
      → Succeeds Q n s
      → Succeeds Q (if b then m else n) s
  Succeeds-else b m n s e x = rw e x

  pub Succeeds-try_except :
      (m : Exec S A) (h : Error → Exec S A) (s : S) → Succeeds Q m s → Succeeds Q (try_except m h) s
  Succeeds-try_except m h s x = record {
    value = x.value;
    final = x.final;
    runs = ap (λ y. handle h y.0 y.1) x.runs;
    holds = x.holds;
  }

module _ {ℓ} {S A B : Type ℓ} (Q : A → S → Type ℓ) (R : B → S → Type ℓ) where
  pub Succeeds-bind :
      (m : Exec S A) (f : A → Exec S B) (s : S)
      → Succeeds Q m s
      → ((a : A) (t : S) → Q a t → Succeeds R (f a) t)
      → Succeeds R (m >>= f) s
  Succeeds-bind m f s x k =
      let y = k x.value x.final x.holds in
      record {
        value = y.value;
        final = y.final;
        runs = ap (λ z. continue f z.0 z.1) x.runs ∙ y.runs;
        holds = y.holds;
      }

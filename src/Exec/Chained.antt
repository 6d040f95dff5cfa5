-- ===== src/Exec/Chained.antt =====
-- Chains of actions that returned: every step did.
use sunbeam_migrate.Prelude.{◌≡◌, refl, Bool, true, false, if◌then◌else◌}
use sunbeam_migrate.Exec.{Result, ok, err, Exec, continue, ◌>>=◌}

module _ {S A B : Type 0} where
  -- A chain that returned: its first step did, and so did the rest from there.
  pub record Chained (m : Exec S A) (f : A → Exec S B) (s : S) (b : B) : Type 0 where
    pub value : A
    pub first : (m s).0 ≡ ok value
    pub rest : (f value (m s).1).0 ≡ ok b
    pub whole : (m >>= f) s ≡ f value (m s).1

  continue-value :
      (f : A → Exec S B) (r : Result A) (s : S) {b : B}
      → (continue f r s).0 ≡ ok b
      → (a : A) × (r ≡ ok a) × ((f a s).0 ≡ ok b) × (continue f r s ≡ f a s)
  continue-value f (ok a) s e = (a, refl, e, refl)
  continue-value f (err c) s e = absurd (cc e)

  pub bind-Chained :
      (m : Exec S A) (f : A → Exec S B) (s : S) {b : B} → ((m >>= f) s).0 ≡ ok b → Chained m f s b
  bind-Chained m f s e =
      let (a, first, rest, whole) = continue-value f (m s).0 (m s).1 e in
      record { value = a; first = first; rest = rest; whole = whole }

-- A conditional action that returned took one of its branches.
pub if_returned :
    {S A : Type 0} (C : Result A × S → Type 0) (b : Bool) (m n : Exec S A) (s : S) {a : A}
    → ((if b then m else n) s).0 ≡ ok a
    → (b ≡ true → (m s).0 ≡ ok a → C (m s))
    → (b ≡ false → (n s).0 ≡ ok a → C (n s))
    → C ((if b then m else n) s)
if_returned C true m n s e yes_case no_case = yes_case refl e
if_returned C false m n s e yes_case no_case = no_case refl e

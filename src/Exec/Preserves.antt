-- ===== src/Exec/Preserves.antt =====
-- Invariants of actions. Whatever an action does before it returns or raises, a predicate on the
-- state that held at its start holds at its end; there is a rule for each way to build an action.
use sunbeam_migrate.Prelude.{◌≡◌, refl, Bool, true, false, if◌then◌else◌}
use sunbeam_migrate.Exec.{Error, Result, ok, err, Exec, pure, raise, lift, gets, continue, ◌>>=◌}

pub record Preserves {ℓ} {State Value : Type ℓ} (Inv : State → Type ℓ) (act : Exec State Value)
    : Type ℓ where
  pub after : (start : State) → Inv start → Inv (act start).1

module _ {ℓ} {State Value : Type ℓ} {Inv : State → Type ℓ} where
  -- Actions that leave the state alone.
  pub Preserves-lift : (outcome : Result Value) → Preserves Inv (lift outcome)
  Preserves-lift outcome = record { after = λ start holds. holds }

  pub Preserves-pure : (value : Value) → Preserves Inv (pure value)
  Preserves-pure value = Preserves-lift (ok value)

  pub Preserves-raise : (problem : Error) → Preserves Inv (raise {A = Value} problem)
  Preserves-raise problem = Preserves-lift (err problem)

  pub Preserves-gets : (read : State → Value) → Preserves Inv (gets read)
  Preserves-gets read = record { after = λ start holds. holds }

-- Two actions in a row.
module _ {ℓ} {State Value Next : Type ℓ} {Inv : State → Type ℓ} where
  after_continue :
      (rest : Value → Exec State Next) (outcome : Result Value) (s : State)
      → ((value : Value) → Preserves Inv (rest value))
      → Inv s
      → Inv (continue rest outcome s).1
  after_continue rest (err problem) s step holds = holds
  after_continue rest (ok value) s step holds = (step value).after s holds

  pub Preserves-bind :
      (act : Exec State Value) (rest : Value → Exec State Next)
      → Preserves Inv act
      → ((value : Value) → Preserves Inv (rest value))
      → Preserves Inv (act >>= rest)
  Preserves-bind act rest begun step = record {
    after = λ start holds.
        after_continue rest (act start).0 (act start).1 step (begun.after start holds);
  }

  -- The rest may use that the computed value is not an error.
  pub Preserves-bind_lift :
      (outcome : Result Value) (rest : Value → Exec State Next)
      → ((value : Value) → outcome ≡ ok value → Preserves Inv (rest value))
      → Preserves Inv (lift outcome >>= rest)
  Preserves-bind_lift (err problem) rest step = record { after = λ start holds. holds }
  Preserves-bind_lift (ok value) rest step = step value refl

-- Either branch, each with the test's answer.
pub Preserves-if {ℓ} :
    {State Value : Type ℓ} {Inv : State → Type ℓ} (test : Bool) (main other : Exec State Value)
    → (test ≡ true → Preserves Inv main)
    → (test ≡ false → Preserves Inv other)
    → Preserves Inv (if test then main else other)
Preserves-if false main other first second = second refl
Preserves-if true main other first second = first refl

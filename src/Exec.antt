-- ===== src/Exec.antt =====
-- Python code that changes state and may raise: what was written before a raise stays written, so
-- the state comes back beside the error too. Errors are the classes of sunbeam_migrate/exception.py
-- and those that the code lets through from the libraries it calls.
pub mod Preserves
pub mod Chained
pub mod Returns
pub mod Leaves
pub mod Same
pub mod Succeeds
use sunbeam_migrate.Prelude.{
  ◌≡◌, refl, true, false, String, Bool, Option, none, some, if◌then◌else◌,
}

pub data Error : Type 0 where
  -- exception.py
  migrate_exception invalid invalid_input not_found multiple_resources not_supported : Error
  -- `NotImplementedError`, `KeyError`, `TypeError`, `ValueError`, `AttributeError`,
  -- `UnboundLocalError`, `RuntimeError` and `RecursionError` of Python
  not_implemented key_error type_error value_error attribute_error unbound_local : Error
  runtime_error recursion_error : Error
  -- `click.ClickException`
  click_exception : Error
  -- an error of SQLAlchemy
  database_error : Error
  -- `ConflictException`, `NotFoundException` and any other error of the OpenStack SDK
  sdk_conflict : String → Error
  sdk_not_found : Error
  sdk_error : String → Error

pub data Result {ℓ} (A : Type ℓ) : Type ℓ where
  ok : A → Result A
  err : Error → Result A

-- From a state to a result and a state.
abbrev pub Exec {ℓ} : (State Value : Type ℓ) → Type ℓ
Exec State Value = State → Result Value × State

module _ {ℓ} {S A : Type ℓ} where
  abbrev pub pure : A → Exec S A
  pure a s = (ok a, s)

  abbrev pub raise : Error → Exec S A
  raise e s = (err e, s)

  abbrev pub lift : Result A → Exec S A
  lift r s = (r, s)

  abbrev pub gets : (S → A) → Exec S A
  gets f s = (ok (f s), s)

  -- `except Exception as ex:`, run from the state that the block left.
  abbrev pub handle : (Error → Exec S A) → Result A → Exec S A
  handle h (ok a) s = (ok a, s)
  handle h (err e) s = h e s

  -- `try: m  except Exception as ex: h(ex)`
  abbrev pub try_except : Exec S A → (Error → Exec S A) → Exec S A
  try_except m h s = let (r, s') = m s in handle h r s'

-- The outcome of a block and of its `finally` block: an error of the latter comes first.
abbrev pub outcome {ℓ} : {A : Type ℓ} → Result (Unit {ℓ}) → Result A → Result A
outcome (ok done) r = r
outcome (err e) r = err e

module _ {ℓ} {S A : Type ℓ} where
  -- `try: m  finally: last`
  abbrev pub try_finally : Exec S A → Exec S (Unit {ℓ}) → Exec S A
  try_finally m last s = let (r, s') = m s in let (f, s'') = last s' in (outcome f r, s'')

  -- What the block returned or raised, as a value.
  abbrev pub attempt : Exec S A → Exec S (Result A)
  attempt m s = let (r, s') = m s in (ok r, s')

module _ {ℓ} {S A B : Type ℓ} where
  abbrev pub continue : (A → Exec S B) → Result A → Exec S B
  continue f (ok a) s = f a s
  continue f (err e) s = (err e, s)

  infixl 5 ◌>>=◌ ◌>>◌
  abbrev pub ◌>>=◌ : Exec S A → (A → Exec S B) → Exec S B
  ◌>>=◌ m f s = let (r, s') = m s in continue f r s'

  abbrev pub ◌>>◌ : Exec S A → Exec S B → Exec S B
  before >> after = before >>= λ _. after

-- `if b: m`
abbrev pub when {ℓ} : {S : Type ℓ} → Bool → Exec S (Unit {ℓ}) → Exec S (Unit {ℓ})
when b m = if b then m else pure tt

-- `if found: return f(found)`, and else the rest.
abbrev pub if_found {ℓ} : {S A B : Type ℓ} → Option A → (A → Exec S B) → Exec S B → Exec S B
if_found (some a) f m = f a
if_found none f m = m

module _ {ℓ} {A B : Type ℓ} where
  -- The value of a step that may raise, for the rest.
  abbrev pub and_then : Result A → (A → Result B) → Result B
  and_then (ok a) f = f a
  and_then (err e) f = err e

  abbrev pub result_map : (A → B) → Result A → Result B
  result_map f (ok a) = ok (f a)
  result_map f (err e) = err e

-- The step raises nothing.
abbrev pub IsOk {ℓ} : {A : Type ℓ} → Result A → Type ℓ
IsOk {A} r = (a : A) × (r ≡ ok a)

module _ {ℓ} {A B : Type ℓ} where
  pub result_map-IsOk : (f : A → B) (r : Result A) → IsOk r → IsOk (result_map f r)
  result_map-IsOk f r (a, e) = (f a, rw e)

  pub and_then-IsOk :
      (r : Result A) (f : A → Result B) → IsOk r → ((a : A) → IsOk (f a)) → IsOk (and_then r f)
  and_then-IsOk r f (a, e) k = let (b, g) = k a in (b, rw e g)

pub if-IsOk {ℓ} :
    {A : Type ℓ} (b : Bool) (r s : Result A)
    → (b ≡ true → IsOk r)
    → (b ≡ false → IsOk s)
    → IsOk (if b then r else s)
if-IsOk true r s p q = p refl
if-IsOk false r s p q = q refl

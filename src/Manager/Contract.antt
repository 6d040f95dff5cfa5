-- ===== src/Manager/Contract.antt =====
-- What an action of the manager does to the database, whether it returns or raises: the table
-- stays sound and evolves from the table `d` at the start; `Q` holds of what it returns, `E` of
-- what it raises.
pub mod Store
pub mod Known
pub mod Cleanup
pub mod Parent
pub mod Transfer
pub mod New
pub mod Members
pub mod Perform
use sunbeam_migrate.Prelude.{◌≡◌, refl, Option, none, some, Bool, true, false, if◌then◌else◌}
use sunbeam_migrate.Exec.{
  Error, Result, ok, err, Exec, lift, handle, try_except, continue, if_found, when, ◌>>=◌,
}
use sunbeam_migrate.Db.Models.{Db}
use sunbeam_migrate.Db.History.{Evolves}
use sunbeam_migrate.Db.History.Rows.{Evolves-refl, Evolves-trans}
use sunbeam_migrate.Db.History.Soundness.{IsSound}
use sunbeam_migrate.Handlers.Interface.{State, on_world}

abbrev pub Grows : Db → Db → Type 0
Grows d e = IsSound e.rows × Evolves d.rows e.rows

pub Grows-refl : (d : Db) → IsSound d.rows → Grows d d
Grows-refl d h = (h, Evolves-refl d.rows)

pub Grows-trans : (d e f : Db) → Grows d e → Grows e f → Grows d f
Grows-trans d e f g h = (h.0, Evolves-trans d.rows e.rows f.rows g.1 h.1)

pub data Ends {W A : Type 0} (d : Db) (Q : A → Db → Type 0) (E : Error → Db → Type 0)
    : Result A × State W → Type 0 where
  returns : (a : A) (s : State W) → Grows d s.db → Q a s.db → Ends d Q E (ok a, s)
  raises : (e : Error) (s : State W) → Grows d s.db → E e s.db → Ends d Q E (err e, s)

-- No claim about the error.
abbrev pub Anything {ℓ} : {A : Type ℓ} → A → Db → Type 0
Anything a d = Unit

module _ {W A : Type 0} (d : Db) where
  -- The action started from a table that `d` had grown into.
  pub Ends-from :
      (e : Db) (Q : A → Db → Type 0) (E : Error → Db → Type 0)
      → Grows d e
      → (x : Result A × State W) → Ends e Q E x
      → Ends d Q E x
  Ends-from e Q E g x (returns a s h q) = returns a s (Grows-trans d e s.db g h) q
  Ends-from e Q E g x (raises c s h q) = raises c s (Grows-trans d e s.db g h) q

  pub Ends-weaken :
      (Q Q' : A → Db → Type 0) (E E' : Error → Db → Type 0)
      → ((a : A) (e : Db) → Grows d e → Q a e → Q' a e)
      → ((c : Error) (e : Db) → Grows d e → E c e → E' c e)
      → (x : Result A × State W) → Ends d Q E x
      → Ends d Q' E' x
  Ends-weaken Q Q' E E' f g x (returns a s h q) = returns a s h (f a s.db h q)
  Ends-weaken Q Q' E E' f g x (raises c s h q) = raises c s h (g c s.db h q)

  Ends-handle :
      (Q : A → Db → Type 0) (E E' : Error → Db → Type 0) (h : Error → Exec (State W) A)
      → ((c : Error) (s : State W) → Grows d s.db → E c s.db → Ends d Q E' (h c s))
      → (x : Result A × State W) → Ends d Q E x
      → Ends d Q E' (handle h x.0 x.1)
  Ends-handle Q E E' h k x (returns a s g q) = returns a s g q
  Ends-handle Q E E' h k x (raises c s g q) = k c s g q

  pub Ends-try_except :
      (Q : A → Db → Type 0) (E E' : Error → Db → Type 0)
      → (m : Exec (State W) A) (h : Error → Exec (State W) A) (s : State W) → Ends d Q E (m s)
      → ((c : Error) (s : State W) → Grows d s.db → E c s.db → Ends d Q E' (h c s))
      → Ends d Q E' (try_except m h s)
  Ends-try_except Q E E' m h s x k = Ends-handle Q E E' h k (m s) x

module _ {W A B : Type 0} (d : Db) where
  Ends-continue :
      (Q : A → Db → Type 0) (R : B → Db → Type 0) (E : Error → Db → Type 0)
      → (f : A → Exec (State W) B)
      → ((a : A) (s : State W) → Grows d s.db → Q a s.db → Ends d R E (f a s))
      → (x : Result A × State W) → Ends d Q E x
      → Ends d R E (continue f x.0 x.1)
  Ends-continue Q R E f k x (returns a s g q) = k a s g q
  Ends-continue Q R E f k x (raises c s g q) = raises c s g q

  pub Ends-bind :
      (Q : A → Db → Type 0) (R : B → Db → Type 0) (E : Error → Db → Type 0)
      → (m : Exec (State W) A) (f : A → Exec (State W) B) (s : State W) → Ends d Q E (m s)
      → ((a : A) (s : State W) → Grows d s.db → Q a s.db → Ends d R E (f a s))
      → Ends d R E ((m >>= f) s)
  Ends-bind Q R E m f s x k = Ends-continue Q R E f k (m s) x

-- What the handlers do to the clouds leaves the database as it is.
module _ {W A : Type 0} (d : Db) where
  Ends-result :
      (E : Error → Db → Type 0) (s : State W)
      → Grows d s.db
      → ((c : Error) → E c s.db)
      → (r : Result A) → Ends d (λ a e. e ≡ s.db) E (r, s)
  Ends-result E s g h (ok a) = returns a s g refl
  Ends-result E s g h (err c) = raises c s g (h c)

  pub Ends-lift :
      (E : Error → Db → Type 0) (r : Result A) (s : State W)
      → Grows d s.db
      → ((c : Error) → E c s.db)
      → Ends d (λ a e. (r ≡ ok a) × (e ≡ s.db)) E (lift r s)
  Ends-lift E (ok a) s g h = returns a s g (refl, refl)
  Ends-lift E (err c) s g h = raises c s g (h c)

  pub Ends-on_world :
      (E : Error → Db → Type 0) (m : Exec W A) (s : State W)
      → Grows d s.db
      → ((c : Error) → E c s.db)
      → Ends d (λ a e. e ≡ s.db) E (on_world m s)
  Ends-on_world E m s g h = let (r, w) = m s.world in Ends-result E (record s { world = w }) g h r

-- An action on the clouds, or one that is computed, and then the rest.
module _ {W A B : Type 0} (d : Db) (R : B → Db → Type 0) where
  pub bind_on_world :
      (m : Exec W A) (f : A → Exec (State W) B) (s : State W)
      → Grows d s.db
      → ((a : A) (s' : State W) → Grows d s'.db → s'.db ≡ s.db → Ends d R Anything (f a s'))
      → Ends d R Anything ((on_world m >>= f) s)
  bind_on_world m f s g k =
      Ends-bind d (λ a e. e ≡ s.db) R Anything (on_world m) f s
        (Ends-on_world d Anything m s g (λ c. tt)) k

  pub bind_lift :
      (r : Result A) (f : A → Exec (State W) B) (s : State W)
      → Grows d s.db
      → ((a : A) → r ≡ ok a → Ends d R Anything (f a s))
      → Ends d R Anything ((lift r >>= f) s)
  bind_lift (ok a) f s g k = k a refl
  bind_lift (err c) f s g k = raises c s g tt

module _ {W A : Type 0} where
  -- The contract of an action whose effect on the database is known.
  Ends-result_of :
      (d : Db) (Q : A → Db → Type 0) (r : Result A) (s : State W)
      → Grows d s.db
      → ((a : A) → r ≡ ok a → Q a s.db)
      → Ends d Q Anything (r, s)
  Ends-result_of d Q (ok a) s g q = returns a s g (q a refl)
  Ends-result_of d Q (err c) s g q = raises c s g tt

  pub Ends-of :
      (d : Db) (Q : A → Db → Type 0) (x : Result A × State W)
      → Grows d x.1.db
      → ((a : A) → x.0 ≡ ok a → Q a x.1.db)
      → Ends d Q Anything x
  Ends-of d Q x g q = Ends-result_of d Q x.0 x.1 g q

  -- The same from an earlier table, with the later one remembered.
  pub Ends-track :
      (d e : Db) (Q : A → Db → Type 0)
      → Grows d e
      → (x : Result A × State W) → Ends e Q Anything x
      → Ends d (λ a f. Grows e f × Q a f) (λ c f. Grows e f) x
  Ends-track d e Q g x (returns a s h q) = returns a s (Grows-trans d e s.db g h) (h, q)
  Ends-track d e Q g x (raises c s h q) = raises c s (Grows-trans d e s.db g h) h

  -- A step of a longer action: `e` is the table to remember, `f` the table at the step.
  pub Ends-step :
      (d e f : Db) (Q : A → Db → Type 0)
      → Grows d e
      → Grows e f
      → (x : Result A × State W) → Ends f Q Anything x
      → Ends d (λ a t. Grows e t × Grows f t × Q a t) (λ c t. Grows e t) x
  Ends-step d e f Q g h x (returns a s k q) =
      let he = Grows-trans e f s.db h k in returns a s (Grows-trans d e s.db g he) (he, k, q)
  Ends-step d e f Q g h x (raises c s k q) =
      let he = Grows-trans e f s.db h k in raises c s (Grows-trans d e s.db g he) he

module _ {W A B : Type 0} where
  -- A step whose contract starts from a later table than that of the whole.
  pub bind_track :
      (d e : Db) (Q : A → Db → Type 0) (R : B → Db → Type 0)
      → Grows d e
      → (m : Exec (State W) A) (f : A → Exec (State W) B) (s : State W) → Ends e Q Anything (m s)
      → ((a : A) (s' : State W)
          → Grows d s'.db
          → Grows e s'.db
          → Q a s'.db
          → Ends d R Anything (f a s'))
      → Ends d R Anything ((m >>= f) s)
  bind_track d e Q R g m f s x k =
      Ends-bind d (λ a t. Grows e t × Q a t) R Anything m f s
        (Ends-weaken d _ _ _ _ (λ a t _ q. q) (λ c t _ q. tt) (m s) (Ends-track d e Q g (m s) x))
        (λ a s' g' q. k a s' g' q.0 q.1)

module _ {W A : Type 0} where
  pub Ends-if :
      (d : Db) (Q : A → Db → Type 0) (E : Error → Db → Type 0)
      → (b : Bool) (m n : Exec (State W) A) (s : State W) → (b ≡ true → Ends d Q E (m s))
      → (b ≡ false → Ends d Q E (n s))
      → Ends d Q E ((if b then m else n) s)
  Ends-if d Q E true m n s yes_case no_case = yes_case refl
  Ends-if d Q E false m n s yes_case no_case = no_case refl

  pub Ends-Grows :
      (d : Db) (Q : A → Db → Type 0) (E : Error → Db → Type 0) (x : Result A × State W)
      → Ends d Q E x
      → Grows d x.1.db
  Ends-Grows d Q E x (returns a s g q) = g
  Ends-Grows d Q E x (raises c s g q) = g

module _ {W A B : Type 0} where
  pub Ends-if_found :
      (d : Db) (Q : B → Db → Type 0) (E : Error → Db → Type 0)
      → (o : Option A) (f : A → Exec (State W) B) (m : Exec (State W) B) (s : State W)
      → ((a : A) → o ≡ some a → Ends d Q E (f a s))
      → (o ≡ none → Ends d Q E (m s))
      → Ends d Q E (if_found o f m s)
  Ends-if_found d Q E (some a) f m s found missing = found a refl
  Ends-if_found d Q E none f m s found missing = missing refl

module _ {W : Type 0} where
  pub Ends-when :
      (d : Db) (b : Bool) (m : Exec (State W) (Unit {0})) (s : State W)
      → Grows d s.db
      → Ends d Anything Anything (m s)
      → Ends d Anything Anything (when b m s)
  Ends-when d true m s g x = x
  Ends-when d false m s g x = returns tt s g tt

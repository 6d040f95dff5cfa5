-- ===== src/Handlers/Through.antt =====
-- Actions of a handler that reach the database through the manager alone: if every call of the
-- manager keeps a relation between the database before and after it, so does the action.
use sunbeam_migrate.Prelude.{Bool, true, false, if◌then◌else◌}
use sunbeam_migrate.Exec.{
  Error, Result, ok, err, Exec, lift, handle, continue, try_except, try_finally, ◌>>=◌,
}
use sunbeam_migrate.Exec.Returns.{Returns}
use sunbeam_migrate.Db.Models.{Db}
use sunbeam_migrate.Handlers.Interface.{State, on_world}

pub record Through {W A : Type 0} (R : Db → Db → Type 0) (m : Exec (State W) A) : Type 0 where
  pub related : (s : State W) → R s.db (m s).1.db

-- A relation that holds from a database to itself, and along two steps.
pub record Order (R : Db → Db → Type 0) : Type 0 where
  pub reflexive : (d : Db) → R d d
  pub transitive : (d e f : Db) → R d e → R e f → R d f

module _ {W : Type 0} (R : Db → Db → Type 0) (order : Order R) where
  module _ {A : Type 0} where
    pub Through-on_world : (m : Exec W A) → Through R (on_world m)
    Through-on_world m = record { related = λ s. order.reflexive s.db }

    pub Through-lift : (r : Result A) → Through {W = W} R (lift r)
    Through-lift r = record { related = λ s. order.reflexive s.db }

    after_handle :
        (h : Error → Exec (State W) A)
        → ((e : Error) → Through R (h e))
        → (r : Result A) (s : State W) → R s.db (handle h r s).1.db
    after_handle h k (ok a) s = order.reflexive s.db
    after_handle h k (err e) s = (k e).related s

    pub Through-try_except :
        (m : Exec (State W) A) (h : Error → Exec (State W) A)
        → Through R m
        → ((e : Error) → Through R (h e))
        → Through R (try_except m h)
    Through-try_except m h p k = record {
      related =
          λ s. order.transitive s.db (m s).1.db _ (p.related s) (after_handle h k (m s).0 (m s).1);
    }

    pub Through-try_finally :
        (m : Exec (State W) A) (last : Exec (State W) (Unit {0}))
        → Through R m
        → Through R last
        → Through R (try_finally m last)
    Through-try_finally m last p q = record {
      related = λ s.
          order.transitive s.db (m s).1.db (last (m s).1).1.db (p.related s) (q.related (m s).1);
    }

    pub Through-if :
        (b : Bool) (m n : Exec (State W) A)
        → Through R m
        → Through R n
        → Through R (if b then m else n)
    Through-if true m n p q = p
    Through-if false m n p q = q

  module _ {A B : Type 0} where
    after_continue :
        (f : A → Exec (State W) B)
        → ((a : A) → Through R (f a))
        → (r : Result A) (s : State W) → R s.db (continue f r s).1.db
    after_continue f k (ok a) s = (k a).related s
    after_continue f k (err e) s = order.reflexive s.db

    pub Through-bind :
        (m : Exec (State W) A) (f : A → Exec (State W) B)
        → Through R m
        → ((a : A) → Through R (f a))
        → Through R (m >>= f)
    Through-bind m f p k = record {
      related = λ s.
          order.transitive s.db (m s).1.db _ (p.related s) (after_continue f k (m s).0 (m s).1);
    }

-- What an action on the clouds returns.
pub Returns-on_world :
    {W A : Type 0} (P : A → Type 0) (m : Exec W A) → Returns P m → Returns P (on_world m)
Returns-on_world P m p = record { holds = λ s e. p.holds s.world e }

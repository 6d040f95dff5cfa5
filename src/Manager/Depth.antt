-- ===== src/Manager/Depth.antt =====
-- How deep the calls of the manager go. Where the resources have a rank, and the dependencies that
-- a handler reports, and the resources that it migrates itself, have a lower one, the depth of
-- calls that the interpreter allows does not matter once it exceeds the rank.
pub mod DryRun
pub mod Run
use mathlib.Core.Path.{subst}
use sunbeam_migrate.Prelude.{
  ℕ, suc, String, ◌≡◌, refl, false, Option, none, some, List, [], ◌∷◌, All, ◌<◌, arith,
}
use sunbeam_migrate.Exec.{Result, ok, err, Exec, gets, lift, and_then, result_map, ◌>>=◌}
use sunbeam_migrate.Exec.Returns.{Returns, Returns-bind, Returns-after, Returns-lift}
use sunbeam_migrate.Exec.Same.{Same}
use sunbeam_migrate.Db.Models.{Migration, Db}
use sunbeam_migrate.Handlers.Interface.{
  Resource, MigratedResource, State, Handler, Request, Perform, on_world,
}
use sunbeam_migrate.Handlers.Factory.{get_migration_handler}
use sunbeam_migrate.Handlers.Through.{Returns-on_world}
use sunbeam_migrate.Manager.Env.{Env}
use sunbeam_migrate.Manager.Lookup.{
  Associated, none_associated, add_pending, add_migrated, only_migrated, get_migrated_resource,
  latest, classify, get_handler, get_associated_resources,
}

-- The two managers do the same for every request, without members, of a rank below the bound.
abbrev pub Agree : {W : Type 0} → (String → String → ℕ) → ℕ → (self other : Perform W) → Type 0
Agree rank bound self other =
    (q : Request)
    → rank q.resource_type q.resource_id < bound
    → q.include_members ≡ false
    → Same (self q) (other q)

-- The resource has a rank below the bound.
abbrev pub Below : (String → String → ℕ) → ℕ → Resource → Type 0
Below rank bound r = rank r.resource_type r.source_id < bound

-- What a rank of the resources is, for the handler classes that the registry names.
pub record IsRank {W : Type 0} (load : String → Handler W) (rank : String → String → ℕ)
    : Type 0 where
  pub reported :
      (t i : String) {h : Handler W}
      → get_migration_handler load (some t) ≡ ok h
      → Returns (All (Below rank (rank t i))) (h.get_associated_resources i)
  pub requested :
      (t i : String) {h : Handler W}
      → get_migration_handler load (some t) ≡ ok h
      → (self other : Perform W) → Agree rank (rank t i) self other
      → (deps : List MigratedResource)
      → Same
          (h.perform_individual_migration self i deps)
          (h.perform_individual_migration other i deps)

mapped-value :
    {A B : Type 0} (Q : B → Type 0) (f : A → B) (r : Result A)
    → ((a : A) → r ≡ ok a → Q (f a))
    → (b : B) → result_map f r ≡ ok b
    → Q b
mapped-value Q f (ok a) k b e = let same : f a ≡ b = cc e in subst Q same (k a refl)
mapped-value Q f (err c) k b e = absurd (cc e)

module _ (P : Resource → Type 0) where
  abbrev Pending : Associated → Type 0
  Pending a = All P a.pending

  found-Pending :
      (rest : Result Associated)
      → ((b : Associated) → rest ≡ ok b → Pending b)
      → (d : Result MigratedResource) (a : Associated)
      → and_then d (λ x. result_map (add_migrated x) rest) ≡ ok a
      → Pending a
  found-Pending rest k (ok d) a e = mapped-value Pending (add_migrated d) rest k a e
  found-Pending rest k (err c) a e = absurd (cc e)

  step-Pending :
      (r : Resource) (rest : Result Associated)
      → P r
      → ((b : Associated) → rest ≡ ok b → Pending b)
      → (o : Option Migration) (a : Associated)
      → elim o [
        | none ↦ result_map (add_pending r) rest
        | some m ↦ and_then (get_migrated_resource m) (λ d. result_map (add_migrated d) rest)
      ]
        ≡ ok a
      → Pending a
  step-Pending r rest p k none a e =
      mapped-value Pending (add_pending r) rest (λ b f. (p, k b f)) a e
  step-Pending r rest p k (some m) a e = found-Pending rest k (get_migrated_resource m) a e

  module _ {W : Type 0} (env : Env W) where
    classify-Pending :
        (db : Db) (rs : List Resource)
        → All P rs
        → (a : Associated) → classify env db rs ≡ ok a
        → Pending a
    unfolding classify
    classify-Pending db [] p a e = let same : none_associated ≡ a = cc e in subst Pending same tt
    classify-Pending db (r ∷ rs) p a e =
        step-Pending r (classify env db rs) p.0 (classify-Pending db rs p.1)
          (only_migrated (latest env r.resource_type r.source_id db)) a e

module _ {W : Type 0} (env : Env W) (rank : String → String → ℕ) (law : IsRank env.load rank) where
  -- What is pending has a lower rank.
  pub get_associated_resources-Below :
      (t i : String)
      → Returns (λ a. All (Below rank (rank t i)) a.pending) (get_associated_resources env t i)
  unfolding get_associated_resources get_handler
  get_associated_resources-Below t i =
      let P = Below rank (rank t i) in
      Returns-bind (Pending P) (λ h. get_migration_handler env.load (some t) ≡ ok h)
        (lift (get_migration_handler env.load (some t))) _ (Returns-lift _ _ λ h e. e)
        λ h found.
          Returns-bind (Pending P) (All P) (on_world (h.get_associated_resources i)) _
            (Returns-on_world (All P) _ (law.reported t i found))
            λ rs below. Returns-after (Pending P) (gets (λ s. s.db)) _ λ db.
              Returns-lift (Pending P) (classify env db rs)
                (λ a e. classify-Pending P env db rs below a e)

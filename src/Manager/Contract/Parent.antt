-- ===== src/Manager/Contract/Parent.antt =====
-- The contracts of `_migrate_parent_resource` and of the steps that it takes.
use mathlib.Core.Path.{◌∙◌}
use sunbeam_migrate.Prelude.{
  String, ◌≡◌, refl, Bool, true, false, not, List, [], ◌∷◌, some, All, All-map, if◌then◌else◌,
}
use sunbeam_migrate.Constants.{Status}
use sunbeam_migrate.Exec.{invalid_input, migrate_exception}
use sunbeam_migrate.Db.Models.{Migration, Db, find_row}
use sunbeam_migrate.Db.History.Soundness.{IsSound}
use sunbeam_migrate.Handlers.Interface.{Resource, State, Request, Perform}
use sunbeam_migrate.Handlers.Factory.{get_migration_handler}
use sunbeam_migrate.Manager.Env.{Env}
use sunbeam_migrate.Manager.Lookup.{Associated, latest, settled, classify, get_associated_resources}
use sunbeam_migrate.Manager.Parent.{dependency_request, migrate_dependencies, resolve, is_empty}
use sunbeam_migrate.Manager.Contract.{
  Grows-refl, Ends, returns, raises, Anything, Ends-bind, Ends-if, Ends-weaken, bind_on_world,
  bind_lift, bind_track, Ends-lift,
}
use sunbeam_migrate.Manager.Contract.Known.{Known, Known-Grows}
use sunbeam_migrate.Manager.Contract.Cleanup.{IsKnown, IsKnown-Grows}

-- The object that a finished migration returns: its row, as stored.
pub record Completed (t i : String) (m : Migration) (e : Db) : Type 0 where
  pub known : Known t i m e
  pub stored : find_row known.key e.rows ≡ some m
  pub status : m.status ≡ some Status.completed

abbrev pub Answers : Request → Migration → Db → Type 0
Answers q m e = q.dry_run ≡ false → Completed q.resource_type q.resource_id m e

-- A manager that keeps the contract.
abbrev pub IsPerform : {W : Type 0} → Perform W → Type 0
IsPerform {W} self =
    (q : Request) (s : State W) → IsSound s.db.rows → Ends s.db (Answers q) Anything (self q s)

All-if {ℓ} :
    {A : Type ℓ} (P : A → Type 0) (b : Bool) (x : A) (xs : List A)
    → P x
    → All P xs
    → All P (if b then x ∷ xs else xs)
All-if P true x xs p ps = (p, ps)
All-if P false x xs p ps = ps

module _ {W : Type 0} (env : Env W) where
  pub get_associated-Ends :
      (t i : String) (s : State W)
      → IsSound s.db.rows
      → Ends s.db (λ a e. e ≡ s.db) Anything (get_associated_resources env t i s)
  unfolding get_associated_resources
  get_associated-Ends t i s sound =
      let g = Grows-refl s.db sound in
      bind_lift s.db _ (get_migration_handler env.load (some t)) _ s g λ h _.
        bind_on_world s.db _ (h.get_associated_resources i) _ s g λ rs s' g' same.
          Ends-weaken s.db _ _ _ _ (λ a e _ q. q.1 ∙ same) (λ c e _ q. tt) _
            (Ends-lift s.db Anything (classify env s'.db rs) s' g' (λ c. tt))

  module _ (self : Perform W) (keeps : IsPerform self) (q : Request) where
    pub migrate_dependencies-Ends :
        (rs : List Resource) (s : State W)
        → IsSound s.db.rows
        → Ends s.db (λ ms e. All (IsKnown env e) ms) Anything (migrate_dependencies env self q rs s)
    unfolding migrate_dependencies
    migrate_dependencies-Ends [] s sound = returns [] s (Grows-refl s.db sound) tt
    migrate_dependencies-Ends (r ∷ rs) s sound =
        Ends-if s.db _ Anything (settled (latest env r.resource_type r.source_id s.db)) _ _ s
          (λ _. migrate_dependencies-Ends rs s sound)
          λ _.
            Ends-bind s.db _ _ Anything (self (dependency_request q r)) _ s
              (keeps (dependency_request q r) s sound)
              λ m s1 g1 done.
                bind_track s.db s1.db _ _ g1 (migrate_dependencies env self q rs) _ s1
                  (migrate_dependencies-Ends rs s1 g1.0)
                  λ ms s2 g2 h2 known. returns _ s2 g2 (
                    All-if (IsKnown env s2.db) r.should_cleanup m ms
                      (_, _, Known-Grows _ _ m s1.db s2.db h2 (done refl).known) known)

    pub resolve-Ends :
        (a : Associated) (s : State W)
        → IsSound s.db.rows
        → Ends s.db (λ p e. All (IsKnown env e) p.1) Anything (resolve env self q a s)
    unfolding resolve
    resolve-Ends a s sound =
        let g = Grows-refl s.db sound in
        Ends-if s.db _ Anything (is_empty a.pending) _ _ s (λ _. returns (a, []) s g tt)
          λ _.
            Ends-if s.db _ Anything (not q.include_dependencies) _ _ s
              (λ _. raises invalid_input s g tt)
              λ _.
                Ends-bind s.db _ _ Anything (migrate_dependencies env self q a.pending) _ s
                  (migrate_dependencies-Ends a.pending s sound)
                  λ ms s1 g1 known.
                    bind_track s.db s1.db _ _ g1
                      (get_associated_resources env q.resource_type q.resource_id) _ s1
                      (get_associated-Ends q.resource_type q.resource_id s1 g1.0)
                      λ again s2 g2 h2 same.
                        Ends-if s.db _ Anything (is_empty again.pending) _ _ s2
                          (λ _.
                            returns (again, ms) s2 g2
                              (All-map (IsKnown-Grows env s1.db s2.db h2) ms known))
                          (λ _. raises migrate_exception s2 g2 tt)

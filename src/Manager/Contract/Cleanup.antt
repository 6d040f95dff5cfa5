-- ===== src/Manager/Contract/Cleanup.antt =====
-- The contract of `cleanup_migration_source`: it marks the row of a migrated resource.
use mathlib.Core.Path.{subst, sym}
use sunbeam_migrate.Prelude.{String, refl, Bool-cases, inl, inr, List, [], ◌∷◌, set?, All, All-map}
use sunbeam_migrate.Constants.{Status}
use sunbeam_migrate.Exec.{Error, invalid_input}
use sunbeam_migrate.Db.Models.{Migration, Db}
use sunbeam_migrate.Db.History.Soundness.{IsSound}
use sunbeam_migrate.Handlers.Interface.{State}
use sunbeam_migrate.Handlers.Base.{text_of}
use sunbeam_migrate.Manager.Env.{Env}
use sunbeam_migrate.Handlers.Factory.{get_migration_handler}
use sunbeam_migrate.Manager.Cleanup.{
  store, set_failure, set_source_removed, remove_source, cleanup_failed, cleanup_migration_source,
  cleanup_sources,
}
use sunbeam_migrate.Manager.Contract.{
  Grows, Grows-refl, Ends, returns, raises, Anything, Ends-bind, Ends-weaken, Ends-from,
  Ends-try_except, bind_on_world, bind_lift,
}
use sunbeam_migrate.Manager.Contract.Known.{
  Known, Known-Grows, set_failure-IsMark, set_source_removed-IsMark, store-Known,
}

module _ {W : Type 0} (env : Env W) (d : Db) (t i : String) where
  remove_source-Ends :
      (m : Migration) (s : State W)
      → Grows d s.db
      → Known t i m s.db
      → Ends d (Known t i) Anything (remove_source env m s)
  unfolding remove_source
  remove_source-Ends m s g k =
      bind_lift d (Known t i) (get_migration_handler env.load m.resource_type) _ s g λ h _.
        bind_on_world d (Known t i) (h.delete_source_resource (text_of m.source_id)) _ s g
          λ _ s' g' same.
            Ends-weaken d _ _ _ _ (λ a e _ q. q.known) (λ c e _ q. q) _
              (store-Known env Anything t i d set_source_removed m s' set_source_removed-IsMark g'
                (subst (Known t i m) (sym same) k))

  cleanup_failed-Ends :
      (m : Migration) (c : Error) (s : State W)
      → Grows d s.db
      → Known t i m s.db
      → Ends d (Known t i) Anything (cleanup_failed env m c s)
  unfolding cleanup_failed
  cleanup_failed-Ends m c s g k =
      Ends-bind d _ (Known t i) Anything (store env _ m) _ s
        (store-Known env Anything t i d (set_failure Status.source_cleanup_failed _) m s
          (set_failure-IsMark Status.source_cleanup_failed _ refl) g k)
        (λ _ s' g' _. raises c s' g' tt)

module _ {W : Type 0} (env : Env W) where
  -- From a sound table and a known row, whatever happens the table stays sound.
  pub cleanup_migration_source-Ends :
      (t i : String) (m : Migration) (s : State W)
      → IsSound s.db.rows
      → Known t i m s.db
      → Ends s.db (Known t i) Anything (cleanup_migration_source env m s)
  unfolding cleanup_migration_source
  cleanup_migration_source-Ends t i m s sound k =
      let g = Grows-refl s.db sound in
      elim (Bool-cases (set? m.source_id)) [
        | inr unset ↦ rw unset (raises invalid_input s g tt)
        | inl is_set ↦ rw is_set (
            Ends-try_except s.db (Known t i) Anything Anything (remove_source env m)
              (cleanup_failed env m) s (remove_source-Ends env s.db t i m s g k)
              (λ c s' g' _.
                cleanup_failed-Ends env s.db t i m c s' g' (Known-Grows t i m s.db s'.db g' k)))
      ]

  -- An object whose row is known, for some resource.
  abbrev pub IsKnown : Db → Migration → Type 0
  IsKnown e m = (t : String) × (i : String) × Known t i m e

  pub IsKnown-Grows : (d e : Db) → Grows d e → (m : Migration) → IsKnown d m → IsKnown e m
  IsKnown-Grows d e g m (t, i, k) = (t, i, Known-Grows t i m d e g k)

  pub cleanup_sources-Ends :
      (ms : List Migration) (s : State W)
      → IsSound s.db.rows
      → All (IsKnown s.db) ms
      → Ends s.db Anything Anything (cleanup_sources env ms s)
  unfolding cleanup_sources
  cleanup_sources-Ends [] s sound ks = returns tt s (Grows-refl s.db sound) tt
  cleanup_sources-Ends (m ∷ ms) s sound ((t, i, k), ks) =
      Ends-bind s.db (Known t i) Anything Anything (cleanup_migration_source env m) _ s
        (cleanup_migration_source-Ends t i m s sound k)
        λ _ s' g' _.
          Ends-from s.db s'.db Anything Anything g' _
            (cleanup_sources-Ends ms s' g'.0 (All-map (IsKnown-Grows s.db s'.db g') ms ks))

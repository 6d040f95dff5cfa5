-- ===== src/Manager/Batch/Table.antt =====
-- `perform_batch_migration`: what a batch does to the table.
use sunbeam_migrate.Prelude.{ℕ, String, false, List, [], ◌∷◌}
use sunbeam_migrate.Exec.{◌>>◌}
use sunbeam_migrate.Db.History.Soundness.{IsSound}
use sunbeam_migrate.Db.Api.{get_migrations}
use sunbeam_migrate.Handlers.Interface.{State, Request}
use sunbeam_migrate.Manager.Env.{Env, IsEnv}
use sunbeam_migrate.Manager.Parent.{is_empty}
use sunbeam_migrate.Manager.Perform.{perform_individual_migration}
use sunbeam_migrate.Manager.Batch.{completed_filters, perform_each}
use sunbeam_migrate.Manager.Contract.{
  Grows-refl, Ends, returns, Anything, Ends-bind, Ends-from, Ends-if,
}
use sunbeam_migrate.Manager.Contract.Parent.{Answers}
use sunbeam_migrate.Manager.Contract.Perform.{perform_individual_migration-IsPerform}

module _ {W : Type 0} (env : Env W) (laws : IsEnv env) (depth : ℕ) where
  -- A batch keeps the table sound, and keeps its migrated rows.
  pub perform_each-Ends :
      (q : Request) (is : List String) (s : State W)
      → IsSound s.db.rows
      → Ends s.db Anything Anything (perform_each env depth q is s)
  unfolding perform_each
  perform_each-Ends q [] s sound = returns tt s (Grows-refl s.db sound) tt
  perform_each-Ends q (i ∷ is) s sound =
      let one = record q { resource_id = i } in
      Ends-if s.db Anything Anything
        (is_empty (get_migrations env.backend false false (completed_filters i) s.db))
        (perform_individual_migration env depth one >> perform_each env depth q is)
        (perform_each env depth q is) s
        (λ _.
          Ends-bind s.db (Answers one) Anything Anything
            (perform_individual_migration env depth one) _ s
            (perform_individual_migration-IsPerform env laws depth one s sound)
            (λ _ s' g' _.
              Ends-from s.db s'.db Anything Anything g' _ (perform_each-Ends q is s' g'.0)))
        (λ _. perform_each-Ends q is s sound)

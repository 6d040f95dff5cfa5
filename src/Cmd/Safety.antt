-- ===== src/Cmd/Safety.antt =====
-- The commands that write keep the table sound: cleanup-source and register-external.
use mathlib.Core.Path.{subst, sym}
use sunbeam_migrate.Prelude.{
  String, ◌≡◌, refl, Bool, true, false, not, ◌&&◌, Option, some, none, List, [], ◌∷◌, All, All-map,
  set?, truthy, arith, opt_eq, opt_eq→eq,
}
use sunbeam_migrate.Constants.{status_text, is_migrated}
use sunbeam_migrate.Exec.{pure, click_exception}
use sunbeam_migrate.Db.Models.{Migration, Db, IsBackend}
use sunbeam_migrate.Db.History.{Evolves, RowSound}
use sunbeam_migrate.Db.History.Soundness.{IsSound, IsStored, rows-IsStored, find-All}
use sunbeam_migrate.Db.Api.{Filters, matches, archived_filter, get_migrations, stored_status}
use sunbeam_migrate.Db.Api.Visible.{get_migrations-All, is_completed, and_inner}
use sunbeam_migrate.Handlers.Interface.{State}
use sunbeam_migrate.Handlers.Base.{text_of}
use sunbeam_migrate.Handlers.Factory.{get_migration_handler}
use sunbeam_migrate.Manager.Env.{Env}
use sunbeam_migrate.Manager.Lookup.{get_handler}
use sunbeam_migrate.Manager.Cleanup.{store, cleanup_migration_source}
use sunbeam_migrate.Manager.Parent.{is_empty}
use sunbeam_migrate.Manager.Contract.{
  Grows-refl, Ends, returns, raises, Anything, Ends-bind, Ends-from, Ends-if, Ends-Grows, bind_lift,
}
use sunbeam_migrate.Manager.Contract.Store.{insert_new}
use sunbeam_migrate.Manager.Contract.Known.{Known}
use sunbeam_migrate.Manager.Contract.Cleanup.{IsKnown, IsKnown-Grows, cleanup_migration_source-Ends}
use sunbeam_migrate.Cmd.Shown.{matches-archived_false}
use sunbeam_migrate.Cmd.Options.{has_filters}
use sunbeam_migrate.Cmd.CleanupSource.{
  cleanup_options, cleanup_filters, cleanup_each, cleanup_migration_sources,
}
use sunbeam_migrate.Cmd.RegisterExternal.{
  registered_filters, external_migration, register_new, register_external,
}

-- A migration that the command selects.
Selected : Migration → Type 0
Selected r = (is_migrated r.status ≡ true) × (r.archived ≡ false)

matches-Selected :
    (f : Filters) (r : Migration)
    → matches (archived_filter false (cleanup_filters f)) r ≡ true
    → Selected r
unfolding matches archived_filter cleanup_filters status_text Selected
matches-Selected f r h = (
  is_completed r.status (
      opt_eq→eq (stored_status r.status) (some "completed")
        (and_inner _ (opt_eq (stored_status r.status) (some "completed")) _ _ _ h)),
  matches-archived_false (cleanup_filters f) r h,
)

text_of-some : (x : Option String) → set? x ≡ true → x ≡ some (text_of x)
text_of-some none h = absurd (cc h)
text_of-some (some s) h = refl

module _ {W : Type 0} (env : Env W) where
  stored-IsKnown :
      (d : Db) (r : Migration) → IsSound d.rows → IsStored d.rows r → Selected r → IsKnown env d r
  unfolding Selected
  stored-IsKnown d r sound (k, id, found) (migrated, visible) =
      let c = find-All RowSound k d.rows r sound.complete found migrated in
      (
        text_of r.resource_type,
        text_of r.source_id,
        record {
          key = k;
          row = r;
          id = id;
          found = found;
          migrated = migrated;
          of = record {
            resource_type = text_of-some r.resource_type c.resource_type;
            source_id = text_of-some r.source_id c.source_id;
            archived = visible;
          };
        },
      )

  cleanup_each-Ends :
      (dry_run : Bool) (ms : List Migration) (s : State W)
      → IsSound s.db.rows
      → All (IsKnown env s.db) ms
      → Ends s.db Anything Anything (cleanup_each env dry_run ms s)
  unfolding cleanup_each
  cleanup_each-Ends dry_run [] s sound ks = returns tt s (Grows-refl s.db sound) tt
  cleanup_each-Ends dry_run (m ∷ ms) s sound ((t, i, k), ks) =
      Ends-if s.db Anything Anything dry_run _ _ s (λ _. cleanup_each-Ends dry_run ms s sound ks)
        λ _.
          Ends-bind s.db (Known t i) Anything Anything (cleanup_migration_source env m) _ s
            (cleanup_migration_source-Ends env t i m s sound k)
            λ _ s' g' _. Ends-from s.db s'.db Anything Anything g' _ (
              cleanup_each-Ends dry_run ms s' g'.0
                (All-map (IsKnown-Grows env s.db s'.db g') ms ks))

-- Where the laws IsBackend hold, `cleanup-source`, with any options and whether it returns or
-- raises, keeps a sound table sound, removes no row, and leaves migrated rows migrated with the
-- same destination and the rows that are not migrated as they are.
pub cleanup_migration_sources-Grows :
    {W : Type 0} (env : Env W) (laws : IsBackend env.backend)
    → (service resource_type source_id : Option String) (all_migrations dry_run : Bool)
      (s : State W)
    → IsSound s.db.rows
    → let s' =
        (cleanup_migration_sources env service resource_type source_id all_migrations dry_run
          s).1 in
      IsSound s'.db.rows × Evolves s.db.rows s'.db.rows
unfolding cleanup_migration_sources
cleanup_migration_sources-Grows env laws service resource_type source_id all_migrations dry_run s
      sound =
    let f = cleanup_options service resource_type source_id in
    Ends-Grows s.db Anything Anything _ (
      Ends-if s.db Anything Anything (not (has_filters f) && not all_migrations && not dry_run) _ _
        s (λ _. raises click_exception s (Grows-refl s.db sound) tt)
        (λ _. cleanup_each-Ends env dry_run _ s sound (
          All-map (λ r h. stored-IsKnown env s.db r sound h.0 (matches-Selected f r h.1)) _
            (get_migrations-All env.backend laws false false (cleanup_filters f) s.db
              (IsStored s.db.rows) (rows-IsStored s.db.rows sound.keys)))))

text_of-truthy : (x : Option String) → set? x ≡ true → truthy (text_of x) ≡ true
text_of-truthy none h = absurd (cc h)
text_of-truthy (some s) h = h

module _ {W : Type 0} (env : Env W) (laws : IsBackend env.backend) where
  register_new-Ends :
      (t source destination : String) (s : State W)
      → truthy t ≡ true
      → truthy source ≡ true
      → truthy destination ≡ true
      → IsSound s.db.rows
      → Ends s.db Anything Anything (register_new env t source destination s)
  unfolding register_new get_handler external_migration
  register_new-Ends t source destination s ht hs hd sound =
      bind_lift s.db Anything (get_migration_handler env.load (some t)) _ s (Grows-refl s.db sound)
        λ h _.
          let m = external_migration env h t source destination in
          let new = insert_new env m s laws refl sound (λ _. record {
            resource_type = ground arith;
            source_id = ground arith;
            destination_id = ground arith;
          }) in
          Ends-bind s.db Anything Anything Anything (store env (λ x. x) m) _ s
            (subst (Ends s.db Anything Anything) (sym new.0) (returns _ _ new.1 tt))
            (λ _ s' g' _. returns tt s' g' tt)

-- Where the laws IsBackend hold, `register-external`, with any options and whether it returns or
-- raises, keeps a sound table sound: the migration that it records is complete and has a key of its
-- own; no row is removed.
pub register_external-Grows :
    {W : Type 0} (env : Env W) (laws : IsBackend env.backend)
    → (resource_type : Option String) (source destination : String) (s : State W)
    → IsSound s.db.rows
    → let s' = (register_external env resource_type source destination s).1 in
      IsSound s'.db.rows × Evolves s.db.rows s'.db.rows
unfolding register_external
register_external-Grows env laws t source destination s sound =
    let g = Grows-refl s.db sound in
    Ends-Grows s.db Anything Anything _ (
      Ends-if s.db Anything Anything (not (truthy source)) _ _ s
        (λ _. raises click_exception s g tt)
        λ hs.
          Ends-if s.db Anything Anything (not (truthy destination)) _ _ s
            (λ _. raises click_exception s g tt)
            λ hd.
              Ends-if s.db Anything Anything (not (set? t)) _ _ s
                (λ _. raises click_exception s g tt)
                λ ht.
                  Ends-if s.db Anything Anything
                    (is_empty (
                      get_migrations env.backend false false
                        (registered_filters (text_of t) source destination) s.db))
                    (register_new env (text_of t) source destination) (pure tt) s
                    (λ _.
                      register_new-Ends env laws (text_of t) source destination s
                        (text_of-truthy t (ground arith)) (ground arith) (ground arith) sound)
                    (λ _. returns tt s g tt))

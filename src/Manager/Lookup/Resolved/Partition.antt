-- ===== src/Manager/Lookup/Resolved/Partition.antt =====
-- `_get_associated_resources` against a description of its two lists.
use sunbeam_migrate.Prelude.{
  ◌≡◌, refl, Bool, true, false, not, Option-cases, inl, inr, Option, none, some, List, [], ◌∷◌,
  keep,
}
use sunbeam_migrate.Exec.{ok}
use sunbeam_migrate.Db.Models.{Migration, Db, IsBackend}
use sunbeam_migrate.Db.History.Soundness.{IsSound}
use sunbeam_migrate.Handlers.Interface.{Resource, MigratedResource}
use sunbeam_migrate.Manager.Env.{Env}
use sunbeam_migrate.Manager.Lookup.{only_migrated, latest, classify}
use sunbeam_migrate.Manager.Lookup.Latest.{latest-IsComplete}
use sunbeam_migrate.Manager.Lookup.Resolved.{entry_of, get_migrated_resource-eq}

abbrev is_some : Option Migration → Bool
is_some none = false
is_some (some m) = true

abbrev with_entry : Option Migration → List MigratedResource → List MigratedResource
with_entry none ds = ds
with_entry (some m) ds = entry_of m ∷ ds

module _ {W : Type 0} (env : Env W) (db : Db) where
  abbrev migration_of : Resource → Option Migration
  migration_of r = only_migrated (latest env r.resource_type r.source_id db)

  -- The reported resources whose latest migration did not succeed, in the order of the report.
  pub not_migrated : List Resource → List Resource
  not_migrated rs = keep (λ r. not (is_some (migration_of r))) rs

  -- The entries of the other ones, in the order of the report.
  pub migrated_entries : List Resource → List MigratedResource
  migrated_entries [] = []
  migrated_entries (r ∷ rs) = with_entry (migration_of r) (migrated_entries rs)

  -- Where the laws IsBackend hold, from a sound table the loop sorts the reported resources, in
  -- their order, into those whose latest migration did not succeed and the entries, with the
  -- destination, of all the others.
  pub classify-partition :
      IsBackend env.backend
      → IsSound db.rows
      → (rs : List Resource)
      → classify env db rs
        ≡ ok (record { migrated = migrated_entries rs; pending = not_migrated rs })
  unfolding classify not_migrated migrated_entries
  classify-partition laws sound [] = refl
  classify-partition laws sound (r ∷ rs) =
      let e = classify-partition laws sound rs in
      elim (Option-cases (migration_of r)) [
        | inl pending ↦ rw (classify, pending) (rw e)
        | inr (m, found) ↦
            let (_, _, complete) =
              latest-IsComplete env laws r.resource_type r.source_id db sound found in
            rw (classify, found) (rw (get_migrated_resource-eq m complete) (rw e))
      ]

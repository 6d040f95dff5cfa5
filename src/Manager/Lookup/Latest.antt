-- ===== src/Manager/Lookup/Latest.antt =====
-- What the manager's query for a resource finds: a stored row of that resource, not archived.
use mathlib.Core.Path.{subst}
use sunbeam_migrate.Prelude.{
  String, ◌≡◌, true, false, some, List, [], ◌∷◌, arith, All, All-map, All-keep, opt_eq→eq,
}
use sunbeam_migrate.Constants.{is_migrated}
use sunbeam_migrate.Db.Models.{Migration, Db, IsBackend}
use sunbeam_migrate.Db.Api.{Filters, matches, archived_filter, get_migrations}
use sunbeam_migrate.Db.History.{RowSound, IsComplete}
use sunbeam_migrate.Db.History.Soundness.{IsSound, IsStored, rows-IsStored, find-All}
use sunbeam_migrate.Manager.Env.{Env}
use sunbeam_migrate.Manager.Lookup.{resource_filters, first, only_migrated, latest}

-- The row is one of this resource.
pub record IsOf (t i : String) (r : Migration) : Type 0 where
  pub resource_type : r.resource_type ≡ some t
  pub source_id : r.source_id ≡ some i
  pub archived : r.archived ≡ false

pub matches-IsOf :
    (t i : String) (r : Migration)
    → matches (record (resource_filters t i) { archived = some false }) r ≡ true
    → IsOf t i r
unfolding matches
matches-IsOf t i r h = record {
  resource_type = opt_eq→eq r.resource_type (some t) (ground arith);
  source_id = opt_eq→eq r.source_id (some i) (ground arith);
  archived = ground arith;
}

first-All {ℓ} :
    {A : Type ℓ} (P : A → Type 0) (xs : List A) {x : A} → All P xs → first xs ≡ some x → P x
first-All P [] h e = absurd (cc)
first-All P (y ∷ xs) h e = subst P (cc) h.0

abbrev Found : List Migration → String → String → Migration → Type 0
Found rows t i r = IsStored rows r × IsOf t i r

module _ {W : Type 0} (env : Env W) (laws : IsBackend env.backend) where
  pub latest-Found :
      (t i : String) (db : Db) {m : Migration}
      → IsSound db.rows
      → latest env t i db ≡ some m
      → Found db.rows t i m
  unfolding latest get_migrations archived_filter
  latest-Found t i db s e =
      let f : Filters = record (resource_filters t i) { archived = some false } in
      let stored = All-keep (IsStored db.rows) (matches f) db.rows (rows-IsStored db.rows s.keys) in
      first-All (Found db.rows t i) (env.backend.order_by false _)
        (laws.order_all false (Found db.rows t i) _
          (All-map (λ r h. (h.0, matches-IsOf t i r h.1)) _ stored))
        e

  -- A migration that is found migrated names its resource and its destination.
  pub latest-IsComplete :
      (t i : String) (db : Db) {m : Migration}
      → IsSound db.rows
      → only_migrated (latest env t i db) ≡ some m
      → (latest env t i db ≡ some m) × (is_migrated m.status ≡ true) × IsComplete m
  latest-IsComplete t i db {m} s e =
      let found : latest env t i db ≡ some m = ground arith in
      let migrated : is_migrated m.status ≡ true = ground arith in
      let ((k, _, at), _) = latest-Found t i db s found in
      (found, migrated, find-All RowSound k db.rows m s.complete at migrated)

-- ===== src/Cmd/Shown.antt =====
-- cmd/list.py and cmd/show.py: what is shown.
use mathlib.Core.Path.{subst}
use sunbeam_migrate.Prelude.{
  String, ◌≡◌, Bool, true, false, ◌&&◌, Bool-cases, inl, inr, some, List, [], ◌∷◌, All, All-map,
  truthy, arith, opt_eq→eq,
}
use sunbeam_migrate.Exec.{ok}
use sunbeam_migrate.Db.Models.{Migration, Db, Backend, IsBackend}
use sunbeam_migrate.Db.Api.{Filters, no_filters, matches, archived_filter, get_migrations}
use sunbeam_migrate.Db.Api.Visible.{get_migrations-All, All-intro}
use sunbeam_migrate.Cmd.Options.{Selection}
use sunbeam_migrate.Cmd.List.{list_filters, list_migrations, only_one, show_migration}

pub matches-archived_false :
    (f : Filters) (r : Migration)
    → matches (record f { archived = some false }) r ≡ true
    → r.archived ≡ false
unfolding matches
matches-archived_false f r h = ground arith

matches-uuid :
    (i : String) (r : Migration)
    → matches (record no_filters { uuid = some i }) r ≡ true
    → r.uuid ≡ some i
unfolding matches
matches-uuid i r h = opt_eq→eq r.uuid (some i) (ground arith)

shown_unarchived :
    (b : Backend) (laws : IsBackend b) (o : Selection)
    → (archived external removed exclude_removed : Bool) (db : Db) {ms : List Migration}
    → list_migrations b o archived false external removed exclude_removed db ≡ ok ms
    → All (λ r. r.archived ≡ false) ms
unfolding list_migrations archived_filter
shown_unarchived b laws o archived external removed exclude_removed db {ms} e =
    elim (Bool-cases (removed && exclude_removed)) [
      | inl both ↦ absurd (ground arith)
      | inr fine ↦
          let f = list_filters o archived external removed exclude_removed in
          let same : get_migrations b false false f db ≡ ms = ground arith in
          subst (All (λ r. r.archived ≡ false)) same (
            All-map (λ r h. matches-archived_false f r h.1) _
              (get_migrations-All b laws false false f db (λ x. Unit {0})
                (All-intro _ (λ x. tt) db.rows)))
    ]

-- Where the laws IsBackend hold, without `--include-archived`, `list` shows no archived migration,
-- whatever the other options are, and with `--archived` it shows the same as without it.
pub list_migrations-archived :
    (b : Backend) (laws : IsBackend b) (o : Selection)
    → (archived external removed exclude_removed : Bool) (db : Db) {ms : List Migration}
    → list_migrations b o archived false external removed exclude_removed db ≡ ok ms
    → All (λ r. r.archived ≡ false) ms
      × (list_migrations b o false false external removed exclude_removed db ≡ ok ms)
unfolding list_migrations list_filters get_migrations archived_filter
list_migrations-archived b laws o archived external removed exclude_removed db e =
    (shown_unarchived b laws o archived external removed exclude_removed db e, e)

only_one-All :
    (P : Migration → Type 0) (ms : List Migration) {m : Migration}
    → All P ms
    → only_one ms ≡ ok m
    → P m
only_one-All P [] h e = absurd (cc e)
only_one-All P (x ∷ []) h e = subst P (cc e) h.0
only_one-All P (x ∷ y ∷ ms) h e = absurd (cc e)

-- Where the laws IsBackend hold, `show` of an id shows a migration with that uuid, from the table;
-- `P` is any property that all rows of the table have.
pub show_migration-uuid :
    (b : Backend) (laws : IsBackend b) (i : String) (db : Db) (P : Migration → Type 0)
    {m : Migration}
    → All P db.rows
    → show_migration b i db ≡ ok m
    → P m × (m.uuid ≡ some i)
unfolding show_migration archived_filter
show_migration-uuid b laws i db P {m} h e = elim (Bool-cases (truthy i)) [
  | inr empty ↦ absurd (ground arith)
  | inl named ↦
      let f : Filters = record no_filters { uuid = some i } in
      let found : only_one (get_migrations b false true f db) ≡ ok m = ground arith in
      only_one-All (λ r. P r × (r.uuid ≡ some i)) _
        (All-map (λ r k. (k.0, matches-uuid i r k.1)) _
          (get_migrations-All b laws false true f db P h))
        found
]

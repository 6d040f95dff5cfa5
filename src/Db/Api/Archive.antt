-- ===== src/Db/Api/Archive.antt =====
-- Deletion and restoration: what queries return after them.
use sunbeam_migrate.Prelude.{
  ℕ, ◌≡◌, refl, sym, ap, Bool, true, false, bool_eq, Bool-cases, inl, inr, Option, some, none, List,
  [], ◌∷◌, ◌&&◌, ◌∙◌, if◌then◌else◌, All, map, keep, arith,
}
use sunbeam_migrate.Db.Models.{Migration, Db, Backend, IsBackend}
use sunbeam_migrate.Db.Api.{
  Filters, matches, text_matches, bool_matches, stored_status, archived_filter, get_migrations,
  set_archived, delete_rows, delete_migrations, restore_migrations,
}
use sunbeam_migrate.Db.Api.Visible.{get_migrations-empty}

-- The filters do not look at the column `archived`, and no filter looks at `updated_at`.
matches-set :
    (f : Filters) (a : Bool) (now : Option ℕ) (r : Migration)
    → f.archived ≡ none
    → matches f (record r { archived = a; updated_at = now }) ≡ matches f r
unfolding matches
matches-set f a now r unfiltered = rw unfiltered refl

and_false : (a : Bool) → (a && false) ≡ false
and_false true = refl
and_false false = refl

and_true : (a : Bool) → (a && true) ≡ a
and_true true = refl
and_true false = refl

and_move : (z p x y : Bool) → (z && p && x && y) ≡ (z && true && x && y && p)
and_move false p x y = refl
and_move true true x y = sym (and_true (x && y))
and_move true false x y = sym (and_false (x && y))

matches-archived :
    (f : Filters) (a : Bool) (r : Migration)
    → f.archived ≡ none
    → matches (record f { archived = some a }) r ≡ (matches f r && bool_eq r.archived a)
unfolding matches
matches-archived f a r unfiltered = rw unfiltered (
    and_move
      (text_matches f.uuid r.uuid
        && text_matches f.service r.service
        && text_matches f.resource_type r.resource_type
        && text_matches f.source_id r.source_id
        && text_matches f.destination_id r.destination_id
        && text_matches f.status (stored_status r.status))
      (bool_eq r.archived a) (bool_matches f.external r.external)
      (bool_matches f.source_removed r.source_removed))

delete_rows-All :
    (f : Filters) (rows : List Migration) → All (λ r. matches f r ≡ false) (delete_rows f rows)
unfolding delete_rows
delete_rows-All f [] = tt
delete_rows-All f (r ∷ rows) = elim (Bool-cases (matches f r)) [
  | inl e ↦ rw e (delete_rows-All f rows)
  | inr e ↦ rw e (e, delete_rows-All f rows)
]

-- A query that no deleted row passes finds the same rows.
keep-delete_rows :
    (f g : Filters) (rows : List Migration)
    → ((r : Migration) → matches g r ≡ true → matches f r ≡ false)
    → keep (matches g) (delete_rows f rows) ≡ keep (matches g) rows
unfolding delete_rows
keep-delete_rows f g [] apart = refl
keep-delete_rows f g (r ∷ rows) apart =
    let rest = keep-delete_rows f g rows apart in
    elim (Bool-cases (matches f r)) [
      | inr kept ↦ rw kept (rw rest refl)
      | inl deleted ↦ elim (Bool-cases (matches g r)) [
        | inl found ↦ absurd (cc (apart r found, deleted))
        | inr missed ↦ rw (deleted, missed) rest
      ]
    ]

-- Where the laws IsBackend hold, after a hard deletion no query by the same filters returns
-- anything, archived or not, in either order, and a query whose filters no deleted row can pass
-- returns what it returned before.
pub delete_migrations-hard :
    (b : Backend) (laws : IsBackend b) (f g : Filters) (include : Bool) (db : Db) (asc : Bool)
    → ((r : Migration) → matches (archived_filter include g) r ≡ true → matches f r ≡ false)
    → (get_migrations b asc true f (delete_migrations b false f db).1 ≡ [])
      × (get_migrations b asc include g (delete_migrations b false f db).1
          ≡ get_migrations b asc include g db)
unfolding delete_migrations archived_filter get_migrations
delete_migrations-hard b laws f g include db asc apart = (
  get_migrations-empty b laws asc true f (delete_migrations b false f db).1
      (delete_rows-All f db.rows),
  ap (b.order_by asc) (keep-delete_rows f (archived_filter include g) db.rows apart),
)

-- A row after a soft deletion.
abbrev soft_deleted : Filters → ℕ → Migration → Migration
soft_deleted f now r =
    if matches f r then record r { archived = true; updated_at = some now } else r

hidden_row :
    (f : Filters) (now : ℕ) (r : Migration)
    → f.archived ≡ none
    → matches (record f { archived = some false }) (soft_deleted f now r) ≡ false
hidden_row f now r unfiltered = elim (Bool-cases (matches f r)) [
  | inl e ↦ rw e (matches-archived f false _ unfiltered ∙ and_false _)
  | inr e ↦ rw e (matches-archived f false r unfiltered ∙ rw e refl)
]

hidden :
    (f : Filters) (now : ℕ) (rows : List Migration)
    → f.archived ≡ none
    → All
        (λ r. matches (record f { archived = some false }) r ≡ false)
        (set_archived true now f rows)
unfolding set_archived
hidden f now [] unfiltered = tt
hidden f now (r ∷ rows) unfiltered = (hidden_row f now r unfiltered, hidden f now rows unfiltered)

-- Where the laws IsBackend hold, after a soft deletion by filters that do not name `archived`, a
-- query by the same filters that does not include archived migrations returns nothing, in either
-- order.
pub delete_migrations-soft :
    (b : Backend) (laws : IsBackend b) (f : Filters) (db : Db) (asc : Bool)
    → f.archived ≡ none
    → get_migrations b asc false f (delete_migrations b true f db).1 ≡ []
unfolding delete_migrations archived_filter
delete_migrations-soft b laws f db asc unfiltered =
    get_migrations-empty b laws asc false f _ (hidden f (b.now db.readings) db.rows unfiltered)

-- The row without the time of its last change.
abbrev pub without_time : Migration → Migration
without_time r = record r { updated_at = none }

-- A row after a restoration.
abbrev restored : Filters → ℕ → Migration → Migration
restored f now r =
    if matches (record f { archived = some true }) r
    then record r { archived = false; updated_at = some now }
    else r

back_row :
    (f : Filters) (m n : ℕ) (r : Migration)
    → f.archived ≡ none
    → r.archived ≡ false
    → without_time (restored f n (soft_deleted f m r)) ≡ without_time r
back_row f m n r unfiltered e = elim (Bool-cases (matches f r)) [
  | inl y ↦
      let hit : matches (record f { archived = some true })
            (record r { archived = true; updated_at = some m })
          ≡ true =
        matches-archived f true _ unfiltered
        ∙ ap (λ c. c && true) (matches-set f true (some m) r unfiltered ∙ y) in
      rw y (rw hit (ground arith))
  | inr y ↦
      let miss : matches (record f { archived = some true }) r ≡ false =
        matches-archived f true r unfiltered ∙ ap (λ c. c && bool_eq r.archived true) y in
      rw y (rw miss refl)
]

back :
    (f : Filters) (m n : ℕ) (rows : List Migration)
    → f.archived ≡ none
    → All (λ r. r.archived ≡ false) rows
    → map without_time
        (set_archived false n (record f { archived = some true }) (set_archived true m f rows))
      ≡ map without_time rows
unfolding set_archived
back f m n [] unfiltered h = refl
back f m n (r ∷ rows) unfiltered h =
    cc (back_row f m n r unfiltered h.0, back f m n rows unfiltered h.1)

-- Where nothing was archived, `restore` with the filters of a soft deletion, which do not name
-- `archived`, brings every row back as it was, up to the time of its last change.
pub restore_migrations-delete_migrations :
    (b : Backend) (f : Filters) (db : Db)
    → f.archived ≡ none
    → All (λ r. r.archived ≡ false) db.rows
    → map without_time (restore_migrations b f (delete_migrations b true f db).1).1.rows
      ≡ map without_time db.rows
unfolding delete_migrations restore_migrations
restore_migrations-delete_migrations b f db unfiltered h =
    back f (b.now db.readings) _ db.rows unfiltered h

-- ===== src/Db/History/Rows.antt =====
-- `Evolves` is a preorder, kept by appending a row and by the writes of the manager.
use sunbeam_migrate.Prelude.{
  ℕ, ◌≡◌, ◌≢◌, refl, ◌∙◌, true, Bool-cases, none, some, List, [], ◌∷◌, ◌++◌, arith, inl, inr,
}
use sunbeam_migrate.Constants.{is_migrated}
use sunbeam_migrate.Db.Models.{Migration, find_row, update_row, has_id}
use sunbeam_migrate.Db.History.{StaysMigrated, RowStep, Evolves}

pub RowStep-refl : (r : Migration) → RowStep r r
RowStep-refl r = record {
  untouched = λ h. refl;
  migrated = λ h. record {
    status = h;
    id = refl;
    source_id = refl;
    resource_type = refl;
    destination_id = refl;
    archived = refl;
    external = refl;
  };
}

StaysMigrated-trans :
    (r s t : Migration) → StaysMigrated r s → StaysMigrated s t → StaysMigrated r t
StaysMigrated-trans r s t g h = record {
  status = h.status;
  id = h.id ∙ g.id;
  source_id = h.source_id ∙ g.source_id;
  resource_type = h.resource_type ∙ g.resource_type;
  destination_id = h.destination_id ∙ g.destination_id;
  archived = h.archived ∙ g.archived;
  external = h.external ∙ g.external;
}

RowStep-trans : (r s t : Migration) → RowStep r s → RowStep s t → RowStep r t
RowStep-trans r s t g h = record {
  untouched = λ u. let e : s ≡ r = g.untouched u in h.untouched (rw e u) ∙ e;
  migrated = λ m. let k = g.migrated m in StaysMigrated-trans r s t k (h.migrated k.status);
}

pub Evolves-refl : (rows : List Migration) → Evolves rows rows
Evolves-refl [] = tt
Evolves-refl (r ∷ rows) = (RowStep-refl r, Evolves-refl rows)

pub Evolves-trans : (a b c : List Migration) → Evolves a b → Evolves b c → Evolves a c
Evolves-trans [] b c g h = tt
Evolves-trans (r ∷ a) [] c g h = absurd g
Evolves-trans (r ∷ a) (s ∷ b) [] g h = absurd h
Evolves-trans (r ∷ a) (s ∷ b) (t ∷ c) g h =
    (RowStep-trans r s t g.0 h.0, Evolves-trans a b c g.1 h.1)

pub Evolves-append : (rows new : List Migration) → Evolves rows (rows ++ new)
Evolves-append [] new = tt
Evolves-append (r ∷ rows) new = (RowStep-refl r, Evolves-append rows new)

-- A row step keeps the primary key.
RowStep-id : (r r' : Migration) → RowStep r r' → r'.id ≡ r.id
RowStep-id r r' h = elim (Bool-cases (is_migrated r.status)) [
  | inl m ↦ (h.migrated m).id
  | inr u ↦ rw (h.untouched u)
]

has_id-RowStep : (i : ℕ) (r r' : Migration) → RowStep r r' → has_id i r' ≡ has_id i r
has_id-RowStep i r r' h = rw (RowStep-id r r' h)

-- A row that is found is found again later, in a later version.
pub find-Evolves :
    (i : ℕ) (rows rows' : List Migration) (r : Migration)
    → Evolves rows rows'
    → find_row i rows ≡ some r
    → (r' : Migration) × (find_row i rows' ≡ some r') × RowStep r r'
unfolding find_row
find-Evolves i [] rows' r e h = cc
find-Evolves i (x ∷ rows) [] r e h = absurd e
find-Evolves i (x ∷ rows) (y ∷ rows') r e h = elim (Bool-cases (has_id i x)) [
  | inl here ↦
      let same : x ≡ r = ground arith in (y, rw (has_id-RowStep i x y e.0, here), rw same at e.0)
  | inr there ↦
      let (r', found, step) = find-Evolves i rows rows' r e.1 (ground arith) in
      (r', rw (has_id-RowStep i x y e.0, there) found, step)
]

-- Writing a row that was not there at the start is no change of the rows that were.
pub Evolves-update_new :
    (i : ℕ) (f : Migration → Migration) (rows rows' : List Migration)
    → find_row i rows ≡ none
    → Evolves rows rows'
    → Evolves rows (update_row i f rows')
unfolding find_row update_row
Evolves-update_new i f [] rows' h e = tt
Evolves-update_new i f (r ∷ rows) [] h e = absurd e
Evolves-update_new i f (r ∷ rows) (r' ∷ rows') h e = elim (Bool-cases (has_id i r)) [
  | inl here ↦ absurd (ground arith)
  | inr there ↦
      rw (has_id-RowStep i r r' e.0, there)
        (e.0, Evolves-update_new i f rows rows' (ground arith) e.1)
]

-- Writing a stored row by a step is a step of the table.
pub Evolves-update :
    (i : ℕ) (f : Migration → Migration) (rows : List Migration) (r : Migration)
    → find_row i rows ≡ some r
    → RowStep r (f r)
    → Evolves rows (update_row i f rows)
unfolding find_row update_row
Evolves-update i f [] r h step = tt
Evolves-update i f (x ∷ rows) r h step = elim (Bool-cases (has_id i x)) [
  | inl here ↦ let same : r ≡ x = ground arith in rw here (rw same at step, Evolves-refl rows)
  | inr there ↦ rw there (RowStep-refl x, Evolves-update i f rows r (ground arith) step)
]

-- What `update_row` has written is found under the same key.
pub find-update :
    (i : ℕ) (f : Migration → Migration) (rows : List Migration) (r : Migration)
    → find_row i rows ≡ some r
    → (f r).id ≡ r.id
    → find_row i (update_row i f rows) ≡ some (f r)
unfolding find_row update_row
find-update i f [] r h k = cc
find-update i f (x ∷ rows) r h k = elim (Bool-cases (has_id i x)) [
  | inl here ↦
      let same : x ≡ r = ground arith in
      let key : has_id i (f x) ≡ true = rw (same, k, ← same) here in rw here (rw key (rw same))
  | inr there ↦ rw there (rw there (find-update i f rows r (ground arith) k))
]

-- A row appended under a fresh key is found.
pub find-append_new :
    (i : ℕ) (rows : List Migration) (r : Migration)
    → find_row i rows ≡ none
    → has_id i r ≡ true
    → find_row i (rows ++ r ∷ []) ≡ some r
unfolding find_row
find-append_new i [] r h k = rw k
find-append_new i (x ∷ rows) r h k = ground (arith, find-append_new i rows r)

-- `update_row` leaves the rows under other keys.
pub find-update_ne :
    (j i : ℕ) (f : Migration → Migration) (rows : List Migration) (r : Migration)
    → ((x : Migration) → (f x).id ≡ x.id)
    → j ≢ i
    → find_row j rows ≡ some r
    → find_row j (update_row i f rows) ≡ some r
unfolding find_row update_row
find-update_ne j i f [] r k ne h = h
find-update_ne j i f (x ∷ rows) r k ne h = ground (arith, k x, find-update_ne j i f rows r k ne)

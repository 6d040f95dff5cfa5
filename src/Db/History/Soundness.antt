-- ===== src/Db/History/Soundness.antt =====
-- The invariant of the table, kept by an insertion under a fresh key and by an update that keeps
-- the key and leaves a complete row.
use sunbeam_migrate.Prelude.{
  ℕ, ◌≡◌, ◌≢◌, refl, ◌∙◌, Bool-cases, none, some, List, [], ◌∷◌, ◌++◌, arith, inl, inr, All,
  All-map,
}
use sunbeam_migrate.Db.Models.{Migration, find_row, update_row, has_id}
use sunbeam_migrate.Db.History.{RowSound, HasKeys}

pub record IsSound (rows : List Migration) : Type 0 where
  pub complete : All RowSound rows
  pub keys : HasKeys rows

-- The row stands in the table under its own key.
abbrev pub IsStored : List Migration → Migration → Type 0
IsStored rows r = (i : ℕ) × (r.id ≡ some i) × (find_row i rows ≡ some r)

pub find-All :
    (P : Migration → Type 0) (i : ℕ) (rows : List Migration) (r : Migration)
    → All P rows
    → find_row i rows ≡ some r
    → P r
unfolding find_row
find-All P i [] r h e = absurd (cc)
find-All P i (x ∷ rows) r h e = elim (Bool-cases (has_id i x)) [
  | inl here ↦ let same : x ≡ r = ground arith in rw same at h.0
  | inr there ↦ find-All P i rows r h.1 (ground arith)
]

-- A row that is found has the key that it is found by.
pub find-id :
    (i : ℕ) (rows : List Migration) (r : Migration) → find_row i rows ≡ some r → r.id ≡ some i
unfolding find_row
find-id i [] r e = cc
find-id i (x ∷ rows) r e = ground (arith, find-id i rows r)

IsStored-cons :
    (x : Migration) (i : ℕ) (rows : List Migration)
    → x.id ≡ some i
    → find_row i rows ≡ none
    → (r : Migration) → IsStored rows r
    → IsStored (x ∷ rows) r
unfolding find_row
IsStored-cons x i rows k fresh r (j, id, found) = (j, id, ground arith)

-- Every row of a table with keys stands under its own key.
pub rows-IsStored : (rows : List Migration) → HasKeys rows → All (IsStored rows) rows
unfolding find_row
rows-IsStored [] h = tt
rows-IsStored (x ∷ rows) ((i, k, fresh), h) =
    ((i, k, ground arith), All-map (IsStored-cons x i rows k fresh) rows (rows-IsStored rows h))

find-append_none :
    (j i : ℕ) (rows : List Migration) (r : Migration)
    → r.id ≡ some i
    → find_row j rows ≡ none
    → j ≢ i
    → find_row j (rows ++ r ∷ []) ≡ none
unfolding find_row
find-append_none j i [] r k h ne = ground arith
find-append_none j i (x ∷ rows) r k h ne = ground (arith, find-append_none j i rows r)

HasKeys-append :
    (i : ℕ) (rows : List Migration) (r : Migration)
    → HasKeys rows
    → find_row i rows ≡ none
    → r.id ≡ some i
    → HasKeys (rows ++ r ∷ [])
unfolding find_row
HasKeys-append i [] r h fresh k = ((i, k, refl), tt)
HasKeys-append i (x ∷ rows) r ((j, kx, fx), h) fresh k = (
  (j, kx, find-append_none j i rows r k fx (λ e. ground arith)),
  HasKeys-append i rows r h (ground arith) k,
)

find-update_none :
    (j i : ℕ) (f : Migration → Migration) (rows : List Migration)
    → ((r : Migration) → (f r).id ≡ r.id)
    → find_row j rows ≡ none
    → find_row j (update_row i f rows) ≡ none
unfolding find_row update_row
find-update_none j i f [] k h = refl
find-update_none j i f (x ∷ rows) k h = ground (arith, k x, find-update_none j i f rows k)

HasKeys-update :
    (i : ℕ) (f : Migration → Migration) (rows : List Migration)
    → ((r : Migration) → (f r).id ≡ r.id)
    → HasKeys rows
    → HasKeys (update_row i f rows)
unfolding update_row
HasKeys-update i f [] k h = tt
HasKeys-update i f (x ∷ rows) k ((j, kx, fx), h) = elim (Bool-cases (has_id i x)) [
  | inl here ↦ rw here ((j, k x ∙ kx, fx), h)
  | inr there ↦ rw there ((j, kx, find-update_none j i f rows k fx), HasKeys-update i f rows k h)
]

All-append_one :
    (P : Migration → Type 0) (rows : List Migration) (r : Migration)
    → All P rows
    → P r
    → All P (rows ++ r ∷ [])
All-append_one P [] r h p = (p, tt)
All-append_one P (x ∷ rows) r h p = (h.0, All-append_one P rows r h.1 p)

All-update :
    (P : Migration → Type 0) (i : ℕ) (f : Migration → Migration) (rows : List Migration)
    → All P rows
    → ((r : Migration) → find_row i rows ≡ some r → P (f r))
    → All P (update_row i f rows)
unfolding find_row update_row
All-update P i f [] h p = tt
All-update P i f (x ∷ rows) h p = elim (Bool-cases (has_id i x)) [
  | inl here ↦ rw here (p x (rw here), h.1)
  | inr there ↦ rw there (h.0, All-update P i f rows h.1 (λ r e. p r (rw there e)))
]

pub IsSound-append :
    (i : ℕ) (rows : List Migration) (r : Migration)
    → IsSound rows
    → find_row i rows ≡ none
    → r.id ≡ some i
    → RowSound r
    → IsSound (rows ++ r ∷ [])
IsSound-append i rows r s fresh k c = record {
  complete = All-append_one RowSound rows r s.complete c;
  keys = HasKeys-append i rows r s.keys fresh k;
}

pub IsSound-update :
    (i : ℕ) (f : Migration → Migration) (rows : List Migration)
    → IsSound rows
    → ((r : Migration) → (f r).id ≡ r.id)
    → ((r : Migration) → find_row i rows ≡ some r → RowSound (f r))
    → IsSound (update_row i f rows)
IsSound-update i f rows s k c = record {
  complete = All-update RowSound i f rows s.complete c;
  keys = HasKeys-update i f rows k s.keys;
}

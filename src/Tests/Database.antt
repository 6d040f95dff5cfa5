-- ===== src/Tests/Database.antt =====
-- A database in memory: fresh keys, and rows sorted by the time of their creation.
use Prim.Native.Nat.{compare, Ordering}
use sunbeam_migrate.Prelude.{
  ℕ, suc, ◌+◌, ◌≤◌, ◌≡◌, refl, Bool, true, false, Bool-cases, inl, inr, none, List, [], ◌∷◌, All,
  arith, if◌then◌else◌,
}
use sunbeam_migrate.Db.Models.{Migration, Backend, IsBackend, find_row, has_id, time_of}

abbrev pub id_of : Migration → ℕ
id_of r = time_of r.id

-- Above every key.
unfoldable pub next : List Migration → ℕ
next [] = 1
next (r ∷ rows) = suc (id_of r + next rows)

has_id-less : (k : ℕ) (r : Migration) → suc (id_of r) ≤ k → has_id k r ≡ false
has_id-less k r h = ground arith

le_refl : (n : ℕ) → n ≤ n
le_refl n = ground arith

le_trans : (a b c : ℕ) → a ≤ b → b ≤ c → a ≤ c
le_trans a b c h k = ground arith

next-fresh : (k : ℕ) (rows : List Migration) → next rows ≤ k → find_row k rows ≡ none
unfolding next find_row
next-fresh k [] h = refl
next-fresh k (r ∷ rows) h =
    let other : has_id k r ≡ false = has_id-less k r (ground arith) in
    let later : next rows ≤ k = ground arith in rw other (next-fresh k rows later)

abbrev pub leb : ℕ → ℕ → Bool
leb a b = elim (compare a b) [ Ordering.gt ↦ false | _ ↦ true ]

-- The row with the later time comes first.
unfoldable pub insert_row : Migration → List Migration → List Migration
insert_row x [] = x ∷ []
insert_row x (y ∷ ys) =
    let rest = insert_row x ys in
    if leb (time_of y.created_at) (time_of x.created_at) then x ∷ y ∷ ys else y ∷ rest

unfoldable pub newest_first : List Migration → List Migration
unfolding insert_row
newest_first [] = []
newest_first (x ∷ xs) = insert_row x (newest_first xs)

insert_row-All :
    (P : Migration → Type 0) (x : Migration) (ys : List Migration)
    → P x
    → All P ys
    → All P (insert_row x ys)
unfolding insert_row
insert_row-All P x [] px h = (px, tt)
insert_row-All P x (y ∷ ys) px h =
    elim (Bool-cases (leb (time_of y.created_at) (time_of x.created_at))) [
      | inl e ↦ rw e (px, h)
      | inr e ↦ rw e (h.0, insert_row-All P x ys px h.1)
    ]

newest_first-All :
    (P : Migration → Type 0) (rows : List Migration) → All P rows → All P (newest_first rows)
unfolding newest_first
newest_first-All P [] h = tt
newest_first-All P (x ∷ xs) h = insert_row-All P x (newest_first xs) h.0 (newest_first-All P xs h.1)

insert_row-nonempty : {A : Type 0} (x : Migration) (ys : List Migration) → insert_row x ys ≡ [] → A
unfolding insert_row
insert_row-nonempty x [] e = absurd (cc e)
insert_row-nonempty x (y ∷ ys) e =
    elim (Bool-cases (leb (time_of y.created_at) (time_of x.created_at))) [
      | inl b ↦ absurd (ground arith)
      | inr b ↦ absurd (ground arith)
    ]

newest_first-empty : (rows : List Migration) → newest_first rows ≡ [] → rows ≡ []
unfolding newest_first
newest_first-empty [] e = refl
newest_first-empty (x ∷ xs) e = insert_row-nonempty x (newest_first xs) e

abbrev pub backend : Backend
backend = record {
  next_id = next;
  now = λ k. suc k;
  uuid4 = λ k. "4f5d6c1e";
  order_by = λ asc rows. newest_first rows;
}

pub backend-IsBackend : IsBackend backend
backend-IsBackend = record {
  fresh = λ rows. next-fresh (next rows) rows (le_refl (next rows));
  uuid_set = λ k. refl;
  order_all = λ asc P rows h. newest_first-All P rows h;
  order_any = λ asc rows e. newest_first-empty rows e;
}

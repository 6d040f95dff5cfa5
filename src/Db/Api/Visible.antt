-- ===== src/Db/Api/Visible.antt =====
-- `get_migrations`: which rows it returns.
use sunbeam_migrate.Prelude.{
  ◌≡◌, refl, Bool, ◌&&◌, Option, some, none, eq_iff, true, false, Bool-cases, inl, inr, List, [],
  ◌∷◌, All, All-map, All-keep, keep,
}
use sunbeam_migrate.Constants.{Status, status_text, is_migrated}
use sunbeam_migrate.Db.Models.{Migration, Db, Backend, IsBackend}
use sunbeam_migrate.Db.Api.{Filters, matches, archived_filter, get_migrations, stored_status}

module _ {A : Type 0} where
  -- What holds of all members that pass the test holds of those kept.
  pub All-passing :
      (P : A → Type 0) (p : A → Bool) (xs : List A)
      → All (λ x. p x ≡ true → P x) xs
      → All P (keep p xs)
  All-passing P p [] h = tt
  All-passing P p (x ∷ xs) h = elim (Bool-cases (p x)) [
    | inl e ↦ rw e (h.0 e, All-passing P p xs h.1)
    | inr e ↦ rw e (All-passing P p xs h.1)
  ]

  pub All-intro : (P : A → Type 0) → ((x : A) → P x) → (xs : List A) → All P xs
  All-intro P f [] = tt
  All-intro P f (x ∷ xs) = (f x, All-intro P f xs)

  pub none-All : (xs : List A) → All (λ x. ⊥) xs → xs ≡ []
  none-All [] h = refl
  none-All (x ∷ xs) h = absurd h.0

module _ (b : Backend) (laws : IsBackend b) where
  -- Every migration that `get_migrations` returns passes the filters and comes from the table;
  -- `P` is any property of the rows of the table.
  pub get_migrations-All :
      (asc include : Bool) (f : Filters) (db : Db) (P : Migration → Type 0)
      → All P db.rows
      → All
          (λ r. P r × (matches (archived_filter include f) r ≡ true))
          (get_migrations b asc include f db)
  unfolding get_migrations
  get_migrations-All asc include f db P h =
      laws.order_all asc _ _ (All-keep P (matches (archived_filter include f)) db.rows h)

  -- A query that no row of the table matches returns nothing.
  pub get_migrations-empty :
      (asc include : Bool) (f : Filters) (db : Db)
      → All (λ r. matches (archived_filter include f) r ≡ false) db.rows
      → get_migrations b asc include f db ≡ []
  get_migrations-empty asc include f db h =
      none-All (get_migrations b asc include f db)
        (All-map (λ r x. absurd (cc (x.0, x.1))) _ (get_migrations-All asc include f db _ h))

-- The status that is stored as "completed".
pub is_completed : (s : Option Status) → stored_status s ≡ some "completed" → is_migrated s ≡ true
unfolding status_text
is_completed none h = absurd (cc h)
is_completed (some Status.completed) h = refl
is_completed (some Status.source_cleanup_failed) h = refl
is_completed (some Status.pending_members) h = refl
is_completed (some Status.pending_cleanup) h = refl
is_completed (some Status.in_progress) h = absurd (cc ((eq_iff "in-progress" "completed").1 (cc h)))
is_completed (some Status.failed) h = absurd (cc ((eq_iff "failed" "completed").1 (cc h)))

-- A test in a conjunction of tests.
pub and_inner : (z a p x y : Bool) → (z && a && p && x && y) ≡ true → a ≡ true
and_inner z true p x y h = refl
and_inner true false p x y h = absurd (cc h)
and_inner false false p x y h = absurd (cc h)

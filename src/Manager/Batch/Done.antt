-- ===== src/Manager/Batch/Done.antt =====
-- What `perform_batch_migration` leaves in the table, and what it passes over.
use sunbeam_migrate.Prelude.{
  ℕ, String, ◌≡◌, refl, sym, ◌∙◌, ap, Bool, true, false, Bool-cases, ◌⊎◌, inl, inr, some, List, [],
  ◌∷◌, All, Any, arith, opt_eq, opt_eq→eq,
}
use mathlib.Core.Path.{subst}
use sunbeam_migrate.Constants.{status_text, is_migrated}
use sunbeam_migrate.Exec.{Result, ok, lift, ◌>>◌}
use sunbeam_migrate.Exec.Chained.{if_returned}
use sunbeam_migrate.Exec.Chained.{bind-Chained}
use sunbeam_migrate.Db.Models.{Migration, Db, Backend, IsBackend, find_row, has_id}
use sunbeam_migrate.Db.Api.{matches, archived_filter, get_migrations, stored_status}
use sunbeam_migrate.Db.Api.Visible.{get_migrations-empty, is_completed, and_inner}
use sunbeam_migrate.Db.History.{Evolves}
use sunbeam_migrate.Db.History.Soundness.{IsSound}
use sunbeam_migrate.Handlers.Interface.{State, Handler, Request, on_world}
use sunbeam_migrate.Handlers.Factory.{get_migration_handler}
use sunbeam_migrate.Manager.Env.{Env, IsEnv}
use sunbeam_migrate.Manager.Lookup.{get_handler}
use sunbeam_migrate.Manager.Parent.{is_empty}
use sunbeam_migrate.Manager.Perform.{perform_individual_migration}
use sunbeam_migrate.Manager.Outcome.{perform-Migrated}
use sunbeam_migrate.Manager.Contract.{Ends-Grows}
use sunbeam_migrate.Manager.Contract.Perform.{perform_individual_migration-IsPerform}
use sunbeam_migrate.Manager.Batch.{completed_filters, perform_each, perform_batch_migration}
use sunbeam_migrate.Manager.Batch.Table.{perform_each-Ends}

-- The row says that a resource with this id has been migrated.
abbrev IsDone : String → Migration → Type 0
IsDone i r = (r.source_id ≡ some i) × (is_migrated r.status ≡ true)

-- Some row of the table does.
pub HasDone : List Migration → String → Type 0
HasDone rows i = Any (IsDone i) rows

module _ {A : Type 0} where
  some_or_none : (p : A → Bool) (xs : List A) → Any (λ x. p x ≡ true) xs ⊎ All (λ x. p x ≡ false) xs
  some_or_none p [] = inr tt
  some_or_none p (x ∷ xs) = elim (Bool-cases (p x)) [
    | inl holds ↦ inl (inl holds)
    | inr fails ↦ elim (some_or_none p xs) [ inl y ↦ inl (inr y) | inr n ↦ inr (fails, n) ]
  ]

  Any-map : {P Q : A → Type 0} → ((x : A) → P x → Q x) → (xs : List A) → Any P xs → Any Q xs
  Any-map f [] h = absurd h
  Any-map f (x ∷ xs) (inl h) = inl (f x h)
  Any-map f (x ∷ xs) (inr h) = inr (Any-map f xs h)

find-Any :
    (P : Migration → Type 0) (k : ℕ) (rows : List Migration) (r : Migration)
    → find_row k rows ≡ some r
    → P r
    → Any P rows
unfolding find_row
find-Any P k [] r e p = absurd (cc e)
find-Any P k (x ∷ rows) r e p = elim (Bool-cases (has_id k x)) [
  | inl here ↦ let same : x ≡ r = ground arith in inl (subst P (sym same) p)
  | inr there ↦ inr (find-Any P k rows r (ground arith) p)
]

find-HasDone :
    (i : String) (k : ℕ) (rows : List Migration) (r : Migration)
    → find_row k rows ≡ some r
    → IsDone i r
    → HasDone rows i
unfolding HasDone
find-HasDone i k rows r e done = find-Any (IsDone i) k rows r e done

-- A migrated row stays one.
HasDone-Evolves :
    (i : String) (rows rows' : List Migration)
    → Evolves rows rows'
    → HasDone rows i
    → HasDone rows' i
unfolding HasDone
HasDone-Evolves i [] rows' g h = absurd h
HasDone-Evolves i (r ∷ rows) [] g h = absurd g
HasDone-Evolves i (r ∷ rows) (r' ∷ rows') (step, g) (inl (of, migrated)) =
    let s = step.migrated migrated in inl (s.source_id ∙ of, s.status)
HasDone-Evolves i (r ∷ rows) (r' ∷ rows') (step, g) (inr h) = inr (HasDone-Evolves i rows rows' g h)

matches-IsDone :
    (i : String) (r : Migration)
    → matches (archived_filter false (completed_filters i)) r ≡ true
    → IsDone i r
unfolding matches archived_filter completed_filters status_text
matches-IsDone i r h = (
  opt_eq→eq r.source_id (some i) (ground arith),
  is_completed r.status (
      opt_eq→eq (stored_status r.status) (some "completed")
        (and_inner _ (opt_eq (stored_status r.status) (some "completed")) _ _ _ h)),
)

-- A resource that the batch passes over has been migrated.
passed-HasDone :
    (b : Backend) (laws : IsBackend b) (i : String) (db : Db)
    → is_empty (get_migrations b false false (completed_filters i) db) ≡ false
    → HasDone db.rows i
unfolding HasDone
passed-HasDone b laws i db found =
    let f = archived_filter false (completed_filters i) in
    elim (some_or_none (matches f) db.rows) [
      | inl here ↦ Any-map (λ r h. matches-IsDone i r h) db.rows here
      | inr nowhere ↦
          let nothing = get_migrations-empty b laws false false (completed_filters i) db nowhere in
          absurd (cc (found, ap is_empty nothing))
    ]

module _ {W : Type 0} (env : Env W) (laws : IsEnv env) (depth : ℕ) where
  -- The resource of one round is migrated after it, and stays so in the rest of the batch.
  perform_each-HasDone :
      (q : Request) (is : List String) (s : State W)
      → q.dry_run ≡ false
      → IsSound s.db.rows
      → (perform_each env depth q is s).0 ≡ ok tt
      → All (HasDone (perform_each env depth q is s).1.db.rows) is
  unfolding perform_each
  perform_each-HasDone q [] s real sound e = tt
  perform_each-HasDone q (i ∷ is) s real sound e =
      let one = record q { resource_id = i } in
      let run = perform_individual_migration env depth one in
      let Goal : Result (Unit {0}) × State W → Type 0 = λ x. All (HasDone x.1.db.rows) (i ∷ is) in
      let rest : (t : State W)
          → IsSound t.db.rows
          → HasDone t.db.rows i
          → (perform_each env depth q is t).0 ≡ ok tt
          → Goal (perform_each env depth q is t) =
        λ t sound' here e'.
          let g = Ends-Grows t.db _ _ _ (perform_each-Ends env laws depth q is t sound') in
          (HasDone-Evolves i t.db.rows _ g.1 here, perform_each-HasDone q is t real sound' e') in
      if_returned Goal
        (is_empty (get_migrations env.backend false false (completed_filters i) s.db))
        (run >> perform_each env depth q is) (perform_each env depth q is) s e
        (λ _ e'.
          let c = bind-Chained run _ s e' in
          let g =
            Ends-Grows s.db _ _ _
              (perform_individual_migration-IsPerform env laws depth one s sound) in
          let m = perform-Migrated env laws depth one s real sound c.first in
          let done : IsDone i c.value = (m.of.source_id, rw m.status refl) in
          subst Goal (sym c.whole)
            (rest (run s).1 g.0 (find-HasDone i m.key _ c.value m.stored done) c.rest))
        (λ found e'. rest s sound (passed-HasDone env.backend laws.backend i s.db found) e')

  -- Where the laws IsEnv hold, when a real batch (not a dry run) from a sound table returns, then for
  -- every resource that the handler listed the table has a row with its id as source id, of this
  -- resource type or another, in a migrated status.
  pub perform_batch_migration-HasDone :
      (q : Request) (filters : List (String × String)) (s : State W)
      → q.dry_run ≡ false
      → IsSound s.db.rows
      → (perform_batch_migration env depth q filters s).0 ≡ ok tt
      → (h : Handler W) × (get_migration_handler env.load (some q.resource_type) ≡ ok h)
        × ((is : List String) × ((h.get_source_resource_ids filters s.world).0 ≡ ok is)
            × All (HasDone (perform_batch_migration env depth q filters s).1.db.rows) is)
  unfolding perform_batch_migration get_handler
  perform_batch_migration-HasDone q filters s real sound e =
      let c = bind-Chained (lift (get_migration_handler env.load (some q.resource_type))) _ s e in
      let list = c.value.get_source_resource_ids filters in
      let c2 = bind-Chained (on_world list) _ s c.rest in
      let t : State W = record s { world = (list s.world).1 } in
      (
        c.value,
        c.first,
        (
          c2.value,
          c2.first,
          subst (λ (x : Result (Unit {0}) × State W). All (HasDone x.1.db.rows) c2.value)
              (sym (c.whole ∙ c2.whole)) (perform_each-HasDone q c2.value t real sound c2.rest),
        ),
      )

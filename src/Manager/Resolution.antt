-- ===== src/Manager/Resolution.antt =====
-- `_migrate_parent_resource`: the handler runs only when every dependency that it reports is
-- resolved to the destination of its latest migration.
use mathlib.Core.Path.{subst}
use sunbeam_migrate.Prelude.{
  ℕ, String, ◌≡◌, refl, sym, ap, arith, true, not, Bool-cases, inl, inr, Option, some, none, List,
  [], ◌∷◌, All, if◌then◌else◌,
}
use sunbeam_migrate.Exec.Chained.{bind-Chained, if_returned}
use sunbeam_migrate.Exec.{Result, ok, Exec, lift, gets, ◌>>=◌}
use sunbeam_migrate.Db.Models.{
  Migration, Db, Backend, IsBackend, refreshed, find_row, update_row, has_id, inserted, updated,
  insert, update, save,
}
use sunbeam_migrate.Db.History.Soundness.{IsSound}
use sunbeam_migrate.Handlers.Interface.{
  Resource, MigratedResource, State, Handler, Request, Perform, on_world,
}
use sunbeam_migrate.Handlers.Factory.{get_migration_handler}
use sunbeam_migrate.Manager.Env.{Env, IsEnv}
use sunbeam_migrate.Manager.Lookup.{Associated, get_handler, classify, get_associated_resources}
use sunbeam_migrate.Manager.Lookup.Resolved.{ResolvedIn, classify-ResolvedIn}
use sunbeam_migrate.Manager.Cleanup.{store, set_destination}
use sunbeam_migrate.Manager.Parent.{is_empty, migrate_dependencies, resolve, transfer}
use sunbeam_migrate.Manager.Contract.{Ends-Grows}
use sunbeam_migrate.Manager.Contract.Parent.{get_associated-Ends, migrate_dependencies-Ends}
use sunbeam_migrate.Manager.Contract.Perform.{perform_individual_migration-IsPerform}
use sunbeam_migrate.Manager.Perform.{perform_individual_migration}

-- The handler reports the resources `reported` for `i` in the state `state`, nothing of them is
-- pending there, and `deps` resolves each to the destination of its latest migration.
pub record Resolution {W : Type 0} (env : Env W) (laws : IsBackend env.backend) (h : Handler W)
    (i : String) (state : State W) (deps : List MigratedResource) : Type 0 where
  pub reported : List Resource
  pub is_reported : (h.get_associated_resources i state.world).0 ≡ ok reported
  pub resolved : All (ResolvedIn env laws state.db deps) reported

-- The state in which the dependencies are looked up for the last time: at once, or after the
-- pending ones of the first look have been migrated.
pub data LastLook {W : Type 0} (env : Env W) (self : Perform W) (q : Request) (s : State W)
    : State W → Type 0 where
  at_once : LastLook env self q s s
  after_dependencies :
      (a : Associated)
      → (get_associated_resources env q.resource_type q.resource_id s).0 ≡ ok a
      → LastLook env self q s
          (migrate_dependencies env self q a.pending
            (get_associated_resources env q.resource_type q.resource_id s).1).1

is_empty-eq : {A : Type 0} (xs : List A) → is_empty xs ≡ true → xs ≡ []
is_empty-eq [] e = refl
is_empty-eq (x ∷ xs) e = absurd (cc e)

module _ {W : Type 0} (env : Env W) (laws : IsBackend env.backend) (t i : String) (h : Handler W)
    (found : get_migration_handler env.load (some t) ≡ ok h) where
  -- What `_get_associated_resources` returns.
  get_associated_resources-Resolution :
      (s : State W) {a : Associated}
      → IsSound s.db.rows
      → (get_associated_resources env t i s).0 ≡ ok a
      → is_empty a.pending ≡ true
      → Resolution env laws h i s a.migrated
  unfolding get_associated_resources get_handler
  get_associated_resources-Resolution s {a} sound e empty =
      let e' : ((on_world (h.get_associated_resources i) >>= λ rs.
      gets (λ x. x.db) >>= λ db. lift (classify env db rs))
            s).0
          ≡ ok a =
        rw found at e in
      let c = bind-Chained (on_world (h.get_associated_resources i)) _ s e' in
      record {
        reported = c.value;
        is_reported = c.first;
        resolved =
            classify-ResolvedIn env laws s.db c.value sound c.rest (is_empty-eq a.pending empty);
      }

-- In the run from `s`, the handler ran right after the last look at the dependencies, with a list
-- that resolves all that it reported there, and returned this id.
pub record Ran {W : Type 0} (env : Env W) (laws : IsBackend env.backend) (h : Handler W)
    (self : Perform W) (q : Request) (s : State W) (d : String) : Type 0 where
  pub look : State W
  pub last_look : LastLook env self q s look
  pub deps : List MigratedResource
  pub resolution : Resolution env laws h q.resource_id look deps
  pub returned :
      (h.perform_individual_migration self q.resource_id deps
        (get_associated_resources env q.resource_type q.resource_id look).1).0
      ≡ ok d

refreshed-value :
    (b : Backend) (o : Option Migration) {m : Migration} → refreshed b o ≡ ok m → o ≡ some m
refreshed-value b none e = absurd (cc e)
refreshed-value b (some r) e = cc e

-- A row that is found after an update has what the update gives every row.
find-updated :
    (P : Migration → Type 0) (f : Migration → Migration) (i : ℕ) (rows : List Migration)
    {x : Migration}
    → ((r : Migration) → (f r).id ≡ r.id)
    → ((r : Migration) → P (f r))
    → find_row i (update_row i f rows) ≡ some x
    → P x
unfolding find_row update_row
find-updated P f i [] keeps p e = absurd (cc e)
find-updated P f i (r ∷ rows) keeps p e = elim (Bool-cases (has_id i r)) [
  | inl here ↦
      let here' : has_id i (f r) ≡ true = rw (keeps r) here in
      let e' : (if has_id i (f r) then some (f r) else find_row i rows) ≡ some _ = rw here at e in
      let e2 : some (f r) ≡ some _ = rw here' at e' in subst P (cc e2) (p r)
  | inr there ↦
      let e' : (if has_id i r then some r else find_row i (update_row i f rows)) ≡ some _ =
        rw there at e in
      let e2 : find_row i (update_row i f rows) ≡ some _ = rw there at e' in
      find-updated P f i rows keeps p e2
]

save_at-destination :
    (b : Backend) (d : String) (m : Migration) (db : Db) (o : Option ℕ) {x : Migration}
    → ((elim o as (λ x. Exec Db Migration) [
      | none ↦ insert b (set_destination d m)
      | some i ↦ update b (set_destination d) i
    ])
        db).0
      ≡ ok x
    → x.destination_id ≡ some d
unfolding insert update
save_at-destination b d m db none {x} e =
    let same : inserted b db (set_destination d m) ≡ x = cc e in
    subst (λ (y : Migration). y.destination_id ≡ some d) same (ground arith)
save_at-destination b d m db (some i) e =
    find-updated (λ y. y.destination_id ≡ some d) (updated b db (set_destination d)) i db.rows
      (λ r. ground arith) (λ r. ground arith) (refreshed-value b _ e)

-- The object that `save` returns after an assignment to the destination has that destination.
save-destination :
    (b : Backend) (d : String) (m : Migration) (db : Db) {x : Migration}
    → (save b (set_destination d) m db).0 ≡ ok x
    → x.destination_id ≡ some d
unfolding save
save-destination b d m db e = save_at-destination b d m db m.id e

module _ {W : Type 0} (env : Env W) (laws : IsEnv env) (n : ℕ) (q : Request) (h : Handler W)
    (found : get_migration_handler env.load (some q.resource_type) ≡ ok h) where
  abbrev self : Perform W
  self = perform_individual_migration env n

  abbrev look_at : Exec (State W) Associated
  look_at = get_associated_resources env q.resource_type q.resource_id

  -- What `resolve` returned, and the state that it left, come from the last look.
  record Resolved (s t : State W) (r : Associated × List Migration) : Type 0 where
    look : State W
    last_look : LastLook env self q s look
    resolution : Resolution env laws.backend h q.resource_id look r.0.migrated
    left : t ≡ (look_at look).1

  -- What `resolve` returns is resolved.
  resolve-Resolved :
      (a : Associated) (s : State W) {r : Associated × List Migration}
      → IsSound s.db.rows
      → (look_at s).0 ≡ ok a
      → (resolve env self q a (look_at s).1).0 ≡ ok r
      → Resolved s (resolve env self q a (look_at s).1).1 r
  unfolding resolve
  resolve-Resolved a s {r} sound first e =
      let C : Result (Associated × List Migration) × State W → Type 0 = λ x. Resolved s x.1 r in
      let s1 = (look_at s).1 in
      let g1 =
        Ends-Grows s.db _ _ _ (get_associated-Ends env q.resource_type q.resource_id s sound) in
      if_returned C (is_empty a.pending) _ _ s1 e
        (λ empty e'.
          let same : (a, []) ≡ r = cc e' in
          record {
            look = s;
            last_look = at_once;
            resolution =
                subst
                  (λ (x : Associated × List Migration).
                    Resolution env laws.backend h q.resource_id s x.0.migrated)
                  same
                  (get_associated_resources-Resolution env laws.backend q.resource_type
                    q.resource_id h found s sound first empty);
            left = refl;
          })
        λ _ e'.
          if_returned C (not q.include_dependencies) _ _ s1 e' (λ _ e2. absurd (cc e2))
            λ _ e2.
              let c = bind-Chained (migrate_dependencies env self q a.pending) _ s1 e2 in
              let s2 = (migrate_dependencies env self q a.pending s1).1 in
              let g2 = Ends-Grows s1.db _ _ _ (
                migrate_dependencies-Ends env self
                  (perform_individual_migration-IsPerform env laws n) q a.pending s1 g1.0) in
              let c' = bind-Chained look_at _ s2 c.rest in
              subst C (sym c.whole) (
                subst C (sym c'.whole) (
                  if_returned C (is_empty c'.value.pending) _ _ _ c'.rest
                    (λ empty e3.
                      let same : (c'.value, c.value) ≡ r = cc e3 in
                      record {
                        look = s2;
                        last_look = after_dependencies a first;
                        resolution =
                            subst
                              (λ (x : Associated × List Migration).
                                Resolution env laws.backend h q.resource_id s2 x.0.migrated)
                              same
                              (get_associated_resources-Resolution env laws.backend q.resource_type
                                q.resource_id h found s2 g2.0 c'.first empty);
                        left = refl;
                      })
                    (λ _ e3. absurd (cc e3))))

  -- Where the laws IsEnv hold: when the `try` block of `_migrate_parent_resource` returns, from a
  -- sound table and with the handler that is registered for the type, the handler has run with a
  -- list that resolves every dependency it reports, none pending, to the destination of that
  -- resource's latest migration, in the table as it is then: at the start, or after the
  -- dependencies that were pending at the start have been migrated. The id that the handler
  -- returned is the destination id of the migration.
  pub transfer-Ran :
      (m : Migration) (s : State W) {p : Migration × List Migration}
      → IsSound s.db.rows
      → (transfer env self q h m s).0 ≡ ok p
      → (d : String) × (p.0.destination_id ≡ some d) × Ran env laws.backend h self q s d
  unfolding transfer
  transfer-Ran m s {p} sound e =
      let c = bind-Chained look_at _ s e in
      let c2 = bind-Chained (resolve env self q c.value) _ (look_at s).1 c.rest in
      let r = resolve-Resolved c.value s sound c.first c2.first in
      let run = h.perform_individual_migration self q.resource_id c2.value.0.migrated in
      let c3 = bind-Chained run _ _ c2.rest in
      let c4 = bind-Chained (store env (set_destination c3.value) m) _ _ c3.rest in
      let pair : (c4.value, c2.value.1) ≡ p = cc c4.rest in
      let same : c4.value ≡ p.0 = ap (λ (x : Migration × List Migration). x.0) pair in
      (
        c3.value,
        subst (λ (x : Migration). x.destination_id ≡ some c3.value) same
            (save-destination env.backend c3.value m _ c4.first),
        record {
          look = r.look;
          last_look = r.last_look;
          deps = c2.value.0.migrated;
          resolution = r.resolution;
          returned = subst (λ t. (run t).0 ≡ ok c3.value) r.left c3.first;
        },
      )

-- ===== src/Manager/Lookup/Resolved.antt =====
-- `_get_associated_resources`: when nothing is pending, every reported dependency is resolved to
-- the destination of its latest migration.
pub mod Partition
use mathlib.Core.Path.{subst, subst₂, sym}
use sunbeam_migrate.Prelude.{
  String, ◌≡◌, refl, ap, true, false, Bool-cases, Option-cases, inl, inr, some, List, [], ◌∷◌, All,
  Any, All-map, arith, eq_iff,
}
use sunbeam_migrate.Exec.{ok, IsOk}
use sunbeam_migrate.Db.Models.{Migration, Db, IsBackend}
use sunbeam_migrate.Db.History.{IsComplete}
use sunbeam_migrate.Db.History.Soundness.{IsSound}
use sunbeam_migrate.Handlers.Interface.{Resource, MigratedResource}
use sunbeam_migrate.Handlers.Base.{is_resource, text_of, get_associated_resource_destination_id}
use sunbeam_migrate.Manager.Env.{Env}
use sunbeam_migrate.Manager.Lookup.{
  Associated, add_pending, add_migrated, only_migrated, get_migrated_resource, latest, classify,
}
use sunbeam_migrate.Manager.Lookup.Latest.{latest-IsComplete, latest-Found}

-- The entry of the list of migrated resources.
abbrev entry_of : Migration → MigratedResource
entry_of m = record {
  resource_type = text_of m.resource_type;
  source_id = text_of m.source_id;
  should_cleanup = false;
  destination_id = text_of m.destination_id;
}

-- `_get_migrated_resource` of a complete row raises nothing.
get_migrated_resource-eq :
    (m : Migration) → IsComplete m → get_migrated_resource m ≡ ok (entry_of m)
unfolding get_migrated_resource
get_migrated_resource-eq m c = rw (c.resource_type, c.source_id, c.destination_id)

is_resource-eq :
    (t i : String) (d : MigratedResource)
    → is_resource t i d ≡ true
    → (t ≡ d.resource_type) × (i ≡ d.source_id)
is_resource-eq t i d h =
    ((eq_iff t d.resource_type).0 (ground arith), (eq_iff i d.source_id).0 (ground arith))

is_resource_self : (d : MigratedResource) → is_resource d.resource_type d.source_id d ≡ true
is_resource_self d =
    rw ((eq_iff d.resource_type d.resource_type).1 refl, (eq_iff d.source_id d.source_id).1 refl)

module _ {W : Type 0} (env : Env W) (laws : IsBackend env.backend) (db : Db) where
  -- The latest migration of the resource has this destination.
  pub record Latest (t i dest : String) : Type 0 where
    pub migration : Migration
    pub is_latest : only_migrated (latest env t i db) ≡ some migration
    pub destination : text_of migration.destination_id ≡ dest

  abbrev IsLatest : MigratedResource → Type 0
  IsLatest d = Latest d.resource_type d.source_id d.destination_id

  -- The dependency is found in the list, with the destination of its latest migration.
  abbrev pub ResolvedIn : List MigratedResource → Resource → Type 0
  ResolvedIn deps r =
      (d : String) × (get_associated_resource_destination_id r.resource_type r.source_id deps
        ≡ ok d)
      × Latest r.resource_type r.source_id d

  -- An entry for the resource.
  abbrev Has : List MigratedResource → Resource → Type 0
  Has deps r = Any (λ d. (r.resource_type ≡ d.resource_type) × (r.source_id ≡ d.source_id)) deps

  Has-ResolvedIn :
      (deps : List MigratedResource) (r : Resource)
      → All IsLatest deps
      → Has deps r
      → ResolvedIn deps r
  unfolding get_associated_resource_destination_id
  Has-ResolvedIn [] r ls h = absurd h
  Has-ResolvedIn (d ∷ deps) r (l, ls) h =
      elim (Bool-cases (is_resource r.resource_type r.source_id d)) [
        | inl here ↦
            let (et, ei) = is_resource-eq r.resource_type r.source_id d here in
            (
              d.destination_id,
              rw here,
              subst₂ (λ t i. Latest t i d.destination_id) (sym et) (sym ei) l,
            )
        | inr other ↦ elim h [
          | inr later ↦
              let (x, found, latest_one) = Has-ResolvedIn deps r ls later in
              (x, rw other found, latest_one)
          | inl (et, ei) ↦ absurd (
              cc (
                other,
                subst₂ (λ t i. is_resource t i d ≡ true) (sym et) (sym ei) (is_resource_self d),
              ))
        ]
      ]

  -- The two lists of a resource and those of the rest.
  abbrev Sorted : List Resource → Associated → Type 0
  Sorted rs a = All IsLatest a.migrated × (a.pending ≡ [] → All (Has a.migrated) rs)

  abbrev Outcome : List Resource → Type 0
  Outcome rs = (a : Associated) × (classify env db rs ≡ ok a) × Sorted rs a

  entry-Sorted :
      (r : Resource) (rs : List Resource) (m : Migration) (a : Associated) (d : MigratedResource)
      → only_migrated (latest env r.resource_type r.source_id db) ≡ some m
      → d.resource_type ≡ r.resource_type
      → d.source_id ≡ r.source_id
      → d.destination_id ≡ text_of m.destination_id
      → Sorted rs a
      → Sorted (r ∷ rs) (add_migrated d a)
  entry-Sorted r rs m a d e et ei ed (ls, has) = (
    (record { migration = m; is_latest = rw (et, ei) e; destination = sym ed }, ls),
    λ none_pending. (inl (sym et, sym ei), All-map (λ x h. inr h) rs (has none_pending)),
  )

  -- The loop raises nothing, and sorts by the latest migrations.
  classify-Outcome : (rs : List Resource) → IsSound db.rows → Outcome rs
  unfolding classify
  classify-Outcome [] sound = (_, refl, (tt, λ _. tt))
  classify-Outcome (r ∷ rs) sound =
      let t = r.resource_type in
      let i = r.source_id in
      let (a, e, sorted) = classify-Outcome rs sound in
      elim (Option-cases (only_migrated (latest env t i db))) [
        | inl pending ↦ (
          add_pending r a,
          rw (classify, pending) (rw e),
          (sorted.0, λ nothing. absurd (cc nothing)),
        )
        | inr (m, found) ↦
            let (at, mig, complete) = latest-IsComplete env laws t i db sound found in
            let (_, of) = latest-Found env laws t i db sound at in
            let d = entry_of m in
            (
              add_migrated d a,
              rw (classify, found) (rw (get_migrated_resource-eq m complete) (rw e)),
              entry-Sorted r rs m a d found (ap text_of of.resource_type) (ap text_of of.source_id)
                  refl sorted,
            )
      ]

  -- Where the laws IsBackend hold, from a sound table the reported resources are sorted into
  -- migrated and pending ones without an error.
  pub classify-IsOk : (rs : List Resource) → IsSound db.rows → IsOk (classify env db rs)
  classify-IsOk rs sound = let (a, e, _) = classify-Outcome rs sound in (a, e)

  -- When nothing is pending, every dependency is resolved.
  pub classify-ResolvedIn :
      (rs : List Resource) {a : Associated}
      → IsSound db.rows
      → classify env db rs ≡ ok a
      → a.pending ≡ []
      → All (ResolvedIn a.migrated) rs
  classify-ResolvedIn rs {a} sound e nothing =
      let (b, f, sorted) = classify-Outcome rs sound in
      let same : b ≡ a = cc (e, f) in
      let sorted' : Sorted rs a = subst (Sorted rs) same sorted in
      All-map (λ r h. Has-ResolvedIn a.migrated r sorted'.0 h) rs (sorted'.1 nothing)

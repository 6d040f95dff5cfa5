-- ===== src/Handlers/Factory/Distinct.antt =====
-- No two resource types share a handler class.
use sunbeam_migrate.Prelude.{
  String, ◌≡◌, refl, sym, ap, ◌∙◌, Bool, true, false, not, ◌&&◌, ◌||◌, ◌==◌, Bool-cases, inl, inr,
  eq_iff, some, [], ◌∷◌, arith,
}
use sunbeam_migrate.Exec.{ok}
use sunbeam_migrate.Handlers.Factory.{
  Registry, registry_get, migration_handlers, get_migration_handler,
}
use sunbeam_migrate.Handlers.Factory.Loaded.{get_migration_handler-Loaded}

-- The path stands in the registry.
abbrev has_path : String → Registry → Bool
has_path p [] = false
has_path p ((k, path) ∷ rest) = p == path || has_path p rest

-- Every path stands there once.
abbrev has_distinct_paths : Registry → Bool
has_distinct_paths [] = true
has_distinct_paths ((k, path) ∷ rest) = not (has_path path rest) && has_distinct_paths rest

registered-has_path :
    (t p : String) (r : Registry) → registry_get t r ≡ some p → has_path p r ≡ true
unfolding registry_get
registered-has_path t p [] e = absurd (cc e)
registered-has_path t p ((k, path) ∷ rest) e = elim (Bool-cases (t == k)) [
  | inl here ↦
      let same : path ≡ p = ground arith in
      let equal : (p == path) ≡ true = (eq_iff p path).1 (sym same) in rw equal refl
  | inr there ↦ let later = registered-has_path t p rest (ground arith) in ground arith
]

registry_get-injective :
    (t u p : String) (r : Registry)
    → has_distinct_paths r ≡ true
    → registry_get t r ≡ some p
    → registry_get u r ≡ some p
    → t ≡ u
unfolding registry_get
registry_get-injective t u p [] d e f = absurd (cc e)
registry_get-injective t u p ((k, path) ∷ rest) d e f =
    let fresh : has_path path rest ≡ false = ground arith in
    elim (Bool-cases (t == k)) [
      | inl here ↦ elim (Bool-cases (u == k)) [
        | inl also ↦ (eq_iff t k).0 here ∙ sym ((eq_iff u k).0 also)
        | inr later ↦
            let same : path ≡ p = ground arith in
            let known = registered-has_path u p rest (ground arith) in
            let again : has_path path rest ≡ true = rw same known in absurd (cc (fresh, again))
      ]
      | inr there ↦ elim (Bool-cases (u == k)) [
        | inl first ↦
            let same : path ≡ p = ground arith in
            let known = registered-has_path t p rest (ground arith) in
            let again : has_path path rest ≡ true = rw same known in absurd (cc (fresh, again))
        | inr later ↦ registry_get-injective t u p rest (ground arith) (ground arith) (ground arith)
      ]
    ]

handlers_distinct : has_distinct_paths migration_handlers ≡ true
unfolding migration_handlers
handlers_distinct = refl

-- No two resource types get the same handler class: the lookup of the class, as a dotted path, is
-- injective where it succeeds.
pub get_migration_handler-injective :
    (t u : String) {p : String}
    → get_migration_handler (λ path. path) (some t) ≡ ok p
    → get_migration_handler (λ path. path) (some u) ≡ ok p
    → t ≡ u
get_migration_handler-injective t u {p} e f =
    let l = get_migration_handler-Loaded (λ path. path) (some t) e in
    let m = get_migration_handler-Loaded (λ path. path) (some u) f in
    registry_get-injective t u p migration_handlers handlers_distinct
      (l.registered ∙ ap some (sym l.is_load)) (m.registered ∙ ap some (sym m.is_load))

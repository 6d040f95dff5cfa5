-- ===== src/Handlers/Factory/Loaded.antt =====
-- When `get_migration_handler` returns a handler, and which.
use sunbeam_migrate.Prelude.{
  String, ◌≡◌, Bool-cases, Option-cases, inl, inr, true, Option, some, set?, arith,
}
use sunbeam_migrate.Exec.{ok}
use sunbeam_migrate.Handlers.Base.{text_of}
use sunbeam_migrate.Handlers.Factory.{registry_get, migration_handlers, get_migration_handler}

-- The resource type is registered, and the handler is that of its class.
pub record Loaded {H : Type 0} (load : String → H) (t : Option String) (h : H) : Type 0 where
  pub path : String
  pub is_set : set? t ≡ true
  pub registered : registry_get (text_of t) migration_handlers ≡ some path
  pub is_load : h ≡ load path

-- When `get_migration_handler` returns a handler, the resource type was given and is registered,
-- and the handler is the one that is loaded from the registered path.
pub get_migration_handler-Loaded :
    {H : Type 0} (load : String → H) (t : Option String) {h : H}
    → get_migration_handler load t ≡ ok h
    → Loaded load t h
unfolding get_migration_handler
get_migration_handler-Loaded load t e = elim (Bool-cases (set? t)) [
  | inr unset ↦ absurd (ground arith)
  | inl is_set ↦ elim (Option-cases (registry_get (text_of t) migration_handlers)) [
    | inl missing ↦ absurd (ground arith)
    | inr (path, at) ↦ record {
      path = path;
      is_set = is_set;
      registered = at;
      is_load = ground arith;
    }
  ]
]

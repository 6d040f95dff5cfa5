-- ===== src/Cmd/Start.antt =====
-- cmd/start.py. `text_of` gives the manager the empty text for a resource type that is not given:
-- the manager refuses both alike, before it does anything else.
use Prim.Native.Char.{Char, code}
use sunbeam_migrate.Prelude.{
  ℕ, String, Bool, not, ◌&&◌, Option, none, some, List, [], ◌∷◌, ◌==◌, set?, nat_eq, if◌then◌else◌,
}
use sunbeam_migrate.Exec.{Exec, Result, ok, err, raise, lift, click_exception, and_then, ◌>>=◌}
use sunbeam_migrate.Db.Models.{Migration}
use sunbeam_migrate.Handlers.Interface.{State, Request}
use sunbeam_migrate.Handlers.Base.{text_of}
use sunbeam_migrate.Manager.Env.{Env}
use sunbeam_migrate.Manager.Parent.{is_empty}
use sunbeam_migrate.Manager.Perform.{perform_individual_migration}
use sunbeam_migrate.Manager.Batch.{perform_batch_migration}

-- The flags of both commands.
pub record Flags : Type 0 where
  pub dry_run : Bool
  pub cleanup_source : Bool
  pub include_dependencies : Bool
  pub include_members : Bool

abbrev pub request : Flags → Option String → String → Request
request f t i = record {
  resource_type = text_of t;
  resource_id = i;
  cleanup_source = f.cleanup_source;
  include_dependencies = f.include_dependencies;
  include_members = f.include_members;
  dry_run = f.dry_run;
}

abbrev pub is_colon : Char → Bool
is_colon c = nat_eq (code c) b':'

abbrev pub to_head : Char → Option (String × String) → Option (String × String)
to_head c none = none
to_head c (some (key, val)) = some (String.◌∷◌ c key, val)

-- `str_filter.split(":", 1)`, and `none` if there is no colon.
unfoldable pub split_colon : String → Option (String × String)
split_colon String.[] = none
split_colon (String.◌∷◌ c s) =
    let rest = split_colon s in if is_colon c then some (String.[], s) else to_head c rest

abbrev pub underscore : Char → Char
underscore c = if nat_eq (code c) b'-' then "_" else c

-- `key.replace("-", "_")`
unfoldable pub replace_dashes : String → String
replace_dashes String.[] = String.[]
replace_dashes (String.◌∷◌ c s) = String.◌∷◌ (underscore c) (replace_dashes s)

-- `d[k] = v` in a dictionary of texts.
unfoldable pub dict_set : String → String → List (String × String) → List (String × String)
dict_set k v [] = (k, v) ∷ []
dict_set k v ((j, w) ∷ d) = if j == k then (j, v) ∷ d else (j, w) ∷ dict_set k v d

abbrev pub add_filter :
    Option (String × String) → List (String × String) → Result (List (String × String))
add_filter none d = err click_exception
add_filter (some (key, val)) d = ok (dict_set (replace_dashes key) val d)

-- The loop over `--filter`.
unfoldable pub parse_filters :
    List String → List (String × String) → Result (List (String × String))
unfolding split_colon replace_dashes dict_set
parse_filters [] d = ok d
parse_filters (f ∷ fs) d = and_then (add_filter (split_colon f) d) (parse_filters fs)

module _ {W : Type 0} (env : Env W) (depth : ℕ) where
  unfoldable pub start_migration : Flags → Option String → String → Exec (State W) Migration
  start_migration f t i = perform_individual_migration env depth (request f t i)

  unfoldable pub start_batch_migration :
      Flags → Option String → List String → Bool → Exec (State W) (Unit {0})
  unfolding parse_filters
  start_batch_migration f t filters migrate_all =
      if not (set? t)
      then raise click_exception
      else if is_empty filters && not migrate_all
      then raise click_exception
      else (do
        d ← lift (parse_filters filters [])
        perform_batch_migration env depth (request f t "") d)

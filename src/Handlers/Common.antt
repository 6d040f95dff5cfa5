-- ===== src/Handlers/Common.antt =====
-- What the handlers of handlers have in common, line by line.
use Prim.Native.String.{◌++◌ as str_append}
use sunbeam_migrate.Prelude.{
  ℕ, String, Bool, Option, none, some, List, [], ◌∷◌, ◌++◌, ◌==◌, truthy, if◌then◌else◌,
}
use sunbeam_migrate.Exec.{Exec, Result, ok, err, not_found, pure, lift, ◌>>=◌, ◌>>◌}
use sunbeam_migrate.Handlers.Interface.{Resource}
use sunbeam_migrate.Handlers.Base.{dependency, validate_resource_filters}
use sunbeam_migrate.Handlers.Sdk.{
  Value, Entries, dict, text, num, list, nil, cons, end, entry, not_none, Object, as_text,
  attribute, Cloud,
}

-- `if not obj: raise exception.NotFound(…)`
abbrev pub or_not_found : Option Object → Result Object
or_not_found none = err not_found
or_not_found (some o) = ok o

-- `obj.project_id` and its like
abbrev pub text_attribute : Object → String → Option String
text_attribute o k = as_text (attribute o k)

-- `if key in resource_filters: query_filters[key] = resource_filters[key]`
unfoldable pub query_filter : String → List (String × String) → List (String × String)
query_filter key [] = []
query_filter key ((k, v) ∷ filters) = if k == key then (k, v) ∷ [] else query_filter key filters

abbrev pub ids : List Object → List String
ids [] = []
ids (o ∷ os) = o.id ∷ ids os

-- `[Resource(resource_type=t, source_id=obj.id) for obj in objects]`
abbrev pub members_of : String → List Object → List Resource
members_of t [] = []
members_of t (o ∷ os) = dependency t o.id ∷ members_of t os

-- The entries of a value that is a dictionary.
abbrev pub entries_of : Value → Entries
entries_of (dict es) = es
entries_of _ = end

-- The fields, and one more where a setting asks for it.
abbrev pub with_field : Bool → String → List String → List String
with_field asked field fields = if asked then fields ++ field ∷ [] else fields

-- The object has an id; `None` has none.
abbrev pub id_of : Option Object → String
id_of none = ""
id_of (some o) = o.id

-- `value not in (None, "")`
abbrev pub not_none_or_blank : Value → Bool
not_none_or_blank (text s) = truthy s
not_none_or_blank v = not_none v

module _ {W : Type 0} (cloud : Cloud W) where
  unfoldable pub get_or_raise : String → String → Exec W Object
  get_or_raise kind i = do o ← cloud.get kind i; lift (or_not_found o)

  -- `get_source_resource_ids`, with the one filter `key` that the handler supports.
  unfoldable pub source_resource_ids :
      String → String → List (String × String) → Exec W (List String)
  unfolding validate_resource_filters query_filter
  source_resource_ids kind key filters = do
    lift (validate_resource_filters (key ∷ []) filters)
    objects ← cloud.list_all kind (query_filter key filters)
    pure (ids objects)

  -- The same for other filters: those that are supported, and the query that they become.
  unfoldable pub queried_ids :
      String
      → List String
      → (List (String × String) → List (String × String))
      → List (String × String)
      → Exec W (List String)
  unfolding validate_resource_filters
  queried_ids kind supported query filters = do
    lift (validate_resource_filters supported filters)
    objects ← cloud.list_all kind (query filters)
    pure (ids objects)

  -- `wait_for_status(…)` and its like, for an object of this kind.
  unfoldable pub wait_for : String → String → String → String → ℕ → ℕ → Exec W (Unit {0})
  wait_for kind i status failure interval timeout =
      cloud.act (str_append "wait_for_" kind) i (
        entry "status" (text status) (
          entry "failures" (list (cons (text failure) nil))
            (entry "interval" (num interval) (entry "wait" (num timeout) end))))
      >> pure tt

-- Of the first filter only, under the key that the service uses, with another entry beside it.
abbrev pub tenant_query :
    String → String → List (String × String) → List (String × String) → List (String × String)
tenant_query key renamed beside filters = elim (query_filter key filters) [
  | [] ↦ []
  | (k, v) ∷ more ↦ (renamed, v) ∷ beside
]

-- ===== src/Handlers/Manila/ShareType.antt =====
-- handlers/manila/share_type.py: `ShareTypeHandler`. The calls of python-manilaclient are those of the
-- clouds, which find nothing where that raises `NotFound`.
use sunbeam_migrate.Prelude.{
  String, Bool, false, ◌||◌, ◌==◌, nat_eq, opt_eq, Option, none, some, List, [], ◌∷◌, if◌then◌else◌,
}
use sunbeam_migrate.Exec.{
  Exec, Result, result_map, pure, lift, when, try_except, if_found, ◌>>=◌, ◌>>◌,
}
use sunbeam_migrate.Handlers.Interface.{MigratedResource, Handler, on_world}
use sunbeam_migrate.Handlers.Sdk.{
  Value, bool, num, text, Object, Kwargs, end, entry, truth, attribute, member, Clouds,
}
use sunbeam_migrate.Handlers.Common.{text_attribute, entries_of, get_or_raise, queried_ids}
use sunbeam_migrate.Handlers.Barbican.Url.{value_at}

-- `value in ("true", "True", True)`
abbrev pub says_true : Value → Bool
says_true (text s) = s == "true" || s == "True"
says_true (bool b) = b
says_true (num n) = nat_eq n 1
says_true _ = false

-- The first type of this name.
unfoldable pub type_named : Option String → List Object → Option Object
type_named name [] = none
type_named name (o ∷ os) =
    if opt_eq (text_attribute o "name") name then some o else type_named name os

-- The arguments of `share_types.create`.
unfoldable pub share_type_kwargs : Object → Result Kwargs
share_type_kwargs o =
    result_map
      (λ dhss. entry "name" (attribute o "name") (
        entry "spec_driver_handles_share_servers" (bool (says_true dhss)) (
          entry "spec_snapshot_support"
            (bool (says_true (member "snapshot_support" (attribute o "extra_specs"))))
            (entry "is_public" (attribute o "is_public") end))))
      (value_at "driver_handles_share_servers" (attribute o "required_extra_specs"))

module _ {W : Type 0} (clouds : Clouds W) where
  unfoldable pub create_share_type : Object → Exec W String
  unfolding share_type_kwargs
  create_share_type o = do
    kwargs ← lift (share_type_kwargs o)
    created ← clouds.destination.create "share-type" kwargs
    let specs = attribute o "extra_specs"
    when (truth specs) (clouds.destination.act "set_keys" created.id (entries_of specs) >> pure tt)
    pure created.id

  unfoldable pub share_type_perform : String → List MigratedResource → Exec W String
  unfolding type_named create_share_type
  share_type_perform i deps = do
    o ← get_or_raise clouds.source "share-type" i
    types ← clouds.destination.list_all "share-type" []
    if_found (type_named (text_attribute o "name") types) (λ found. pure found.id)
        (create_share_type o)

  -- `_delete_resource` on the source cloud: a type that is still in use stays, with a warning.
  unfoldable pub delete_share_type : String → Exec W (Unit {0})
  delete_share_type i = try_except (clouds.source.delete "share-type" i) (λ e. pure tt)

  unfoldable pub share_type_handler : Handler W
  unfolding share_type_perform delete_share_type
  share_type_handler = record {
    service_type = "manila";
    get_associated_resources = λ i. pure [];
    get_member_resources = λ i. pure [];
    get_source_resource_ids = queried_ids clouds.source "share-type" [] (λ filters. []);
    perform_individual_migration = λ self i deps. on_world (share_type_perform i deps);
    connect_member_resources_to_parent = λ parent members. pure tt;
    delete_source_resource = delete_share_type;
  }

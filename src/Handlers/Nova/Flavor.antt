-- ===== src/Handlers/Nova/Flavor.antt =====
-- handlers/nova/flavor.py: `FlavorHandler`.
use sunbeam_migrate.Prelude.{String, not, List, [], ◌∷◌, if◌then◌else◌}
use sunbeam_migrate.Exec.{
  Exec, Result, ok, err, invalid_input, pure, lift, when, if_found, ◌>>=◌, ◌>>◌,
}
use sunbeam_migrate.Handlers.Interface.{MigratedResource, Handler, on_world}
use sunbeam_migrate.Handlers.Base.{text_of}
use sunbeam_migrate.Handlers.Sdk.{
  Object, Kwargs, end, entry, truth, not_none, not_none_or_empty, attribute, copy_fields, Clouds,
}
use sunbeam_migrate.Handlers.Common.{text_attribute, entries_of, get_or_raise, queried_ids}

-- The loop over the required fields.
unfoldable pub check_fields : List String → Object → Result (Unit {0})
check_fields [] o = ok tt
check_fields (f ∷ fs) o =
    if not (not_none (attribute o f)) then err invalid_input else check_fields fs o

-- `_build_flavor_kwargs`, once the required fields are there.
unfoldable pub flavor_fields : Object → Kwargs
unfolding copy_fields
flavor_fields o =
    copy_fields not_none_or_empty
      ("swap" ∷ "ephemeral" ∷ "rxtx_factor" ∷ "is_public" ∷ "description" ∷ []) o
      (entry "name" (attribute o "name") (
        entry "ram" (attribute o "ram")
          (entry "vcpus" (attribute o "vcpus") (entry "disk" (attribute o "disk") end))))

module _ {W : Type 0} (clouds : Clouds W) where
  -- The flavor, and its extra specs where it has some.
  unfoldable pub create_flavor : Object → Exec W String
  unfolding check_fields flavor_fields
  create_flavor o = do
    lift (check_fields ("ram" ∷ "vcpus" ∷ "disk" ∷ []) o)
    created ← clouds.destination.create "flavor" (flavor_fields o)
    let specs = attribute o "extra_specs"
    when (truth specs) (
        clouds.destination.act "create_flavor_extra_specs" created.id (entries_of specs) >> pure tt)
    pure created.id

  unfoldable pub flavor_perform : String → List MigratedResource → Exec W String
  unfolding create_flavor
  flavor_perform i deps = do
    o ← get_or_raise clouds.source "flavor" i
    existing ← clouds.destination.find "flavor" (text_of (text_attribute o "name")) []
    if_found existing (λ found. pure found.id) (create_flavor o)

  unfoldable pub flavor_handler : Handler W
  unfolding flavor_perform
  flavor_handler = record {
    service_type = "nova";
    get_associated_resources = λ i. pure [];
    get_member_resources = λ i. pure [];
    get_source_resource_ids = queried_ids clouds.source "flavor" [] (λ filters. []);
    perform_individual_migration = λ self i deps. on_world (flavor_perform i deps);
    connect_member_resources_to_parent = λ parent members. pure tt;
    delete_source_resource = clouds.source.delete "flavor";
  }

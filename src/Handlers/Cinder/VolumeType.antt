-- ===== src/Handlers/Cinder/VolumeType.antt =====
-- handlers/cinder/volume_type.py: `VolumeTypeHandler`.
use sunbeam_migrate.Prelude.{String, List, [], ◌∷◌}
use sunbeam_migrate.Exec.{Exec, pure, when, try_except, if_found, ◌>>=◌, ◌>>◌}
use sunbeam_migrate.Handlers.Interface.{MigratedResource, Handler, on_world}
use sunbeam_migrate.Handlers.Base.{text_of}
use sunbeam_migrate.Handlers.Sdk.{
  Object, Kwargs, end, truth, not_none_or_empty, attribute, copy_fields, Clouds,
}
use sunbeam_migrate.Handlers.Common.{text_attribute, entries_of, get_or_raise, queried_ids}

-- `_build_type_kwargs`
unfoldable pub build_type_kwargs : Object → Kwargs
unfolding copy_fields
build_type_kwargs o =
    copy_fields not_none_or_empty ("is_public" ∷ "description" ∷ "name" ∷ []) o end

module _ {W : Type 0} (clouds : Clouds W) where
  -- The type, and its extra specs where it has some.
  unfoldable pub create_type : Object → Exec W String
  unfolding build_type_kwargs
  create_type o = do
    created ← clouds.destination.create "volume-type" (build_type_kwargs o)
    let specs = attribute o "extra_specs"
    when (truth specs)
        (clouds.destination.act "update_type_extra_specs" created.id (entries_of specs) >> pure tt)
    pure created.id

  unfoldable pub volume_type_perform : String → List MigratedResource → Exec W String
  unfolding create_type
  volume_type_perform i deps = do
    o ← get_or_raise clouds.source "volume-type" i
    existing ← clouds.destination.find "volume-type" (text_of (text_attribute o "name")) []
    if_found existing (λ found. pure found.id) (create_type o)

  -- `_delete_resource` on the source cloud: a type that is still in use stays, with a warning.
  unfoldable pub delete_volume_type : String → Exec W (Unit {0})
  delete_volume_type i = try_except (clouds.source.delete "volume-type" i) (λ e. pure tt)

  unfoldable pub volume_type_handler : Handler W
  unfolding volume_type_perform delete_volume_type
  volume_type_handler = record {
    service_type = "cinder";
    get_associated_resources = λ i. pure [];
    get_member_resources = λ i. pure [];
    get_source_resource_ids = queried_ids clouds.source "volume-type" [] (λ filters. []);
    perform_individual_migration = λ self i deps. on_world (volume_type_perform i deps);
    connect_member_resources_to_parent = λ parent members. pure tt;
    delete_source_resource = delete_volume_type;
  }

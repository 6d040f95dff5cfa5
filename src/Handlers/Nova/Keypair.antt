-- ===== src/Handlers/Nova/Keypair.antt =====
-- handlers/nova/keypair.py: `KeypairHandler`.
use sunbeam_migrate.Prelude.{String, List, [], ◌∷◌}
use sunbeam_migrate.Exec.{Exec, pure, if_found, ◌>>=◌}
use sunbeam_migrate.Handlers.Interface.{MigratedResource, Handler, on_world}
use sunbeam_migrate.Handlers.Base.{text_of}
use sunbeam_migrate.Handlers.Sdk.{
  Object, Kwargs, end, entry, not_none, attribute, copy_fields, Clouds,
}
use sunbeam_migrate.Handlers.Common.{text_attribute, get_or_raise, queried_ids}

-- `_build_keypair_kwargs`
unfoldable pub build_keypair_kwargs : Object → Kwargs
unfolding copy_fields
build_keypair_kwargs o =
    copy_fields not_none ("type" ∷ []) o
      (entry "name" (attribute o "name") (entry "public_key" (attribute o "public_key") end))

module _ {W : Type 0} (clouds : Clouds W) where
  unfoldable pub create_keypair : Object → Exec W String
  unfolding build_keypair_kwargs
  create_keypair o = do
    created ← clouds.destination.create "keypair" (build_keypair_kwargs o)
    pure created.id

  unfoldable pub keypair_perform : String → List MigratedResource → Exec W String
  unfolding create_keypair
  keypair_perform i deps = do
    o ← get_or_raise clouds.source "keypair" i
    existing ← clouds.destination.find "keypair" (text_of (text_attribute o "name")) []
    if_found existing (λ found. pure found.id) (create_keypair o)

  unfoldable pub keypair_handler : Handler W
  unfolding keypair_perform
  keypair_handler = record {
    service_type = "nova";
    get_associated_resources = λ i. pure [];
    get_member_resources = λ i. pure [];
    get_source_resource_ids = queried_ids clouds.source "keypair" [] (λ filters. []);
    perform_individual_migration = λ self i deps. on_world (keypair_perform i deps);
    connect_member_resources_to_parent = λ parent members. pure tt;
    delete_source_resource = clouds.source.delete "keypair";
  }

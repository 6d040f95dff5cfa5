-- ===== src/Handlers/Cinder/Volume.antt =====
-- handlers/cinder/volume.py: `VolumeHandler`. A volume is uploaded to an image, the image is migrated
-- by the manager, and the volume is created from it; the images are deleted in the end.
pub mod Lawful
pub mod Temporary
use Prim.Native.String.{◌++◌ as str_append}
use sunbeam_migrate.Prelude.{
  String, true, false, Option, none, some, set?, List, [], ◌∷◌, ◌++◌, if◌then◌else◌,
}
use sunbeam_migrate.Config.{Config}
use sunbeam_migrate.Exec.{
  Error, Exec, ok, invalid_input, pure, raise, lift, when, try_except, try_finally, ◌>>=◌, ◌>>◌,
}
use sunbeam_migrate.Db.Models.{Migration}
use sunbeam_migrate.Handlers.Interface.{
  Resource, MigratedResource, State, Handler, Request, Perform, on_world,
}
use sunbeam_migrate.Handlers.Base.{
  dependency, text_of, report_identity_dependencies, get_identity_build_kwargs,
  get_associated_resource_destination_id,
}
use sunbeam_migrate.Handlers.Sdk.{
  Object, Kwargs, text, bool, end, entry, truth, not_none_or_empty, attribute, entry_set,
  copy_fields, Cloud, Clouds,
}
use sunbeam_migrate.Handlers.Common.{
  text_attribute, id_of, with_field, get_or_raise, queried_ids, tenant_query, wait_for,
}
use sunbeam_migrate.Handlers.Owner.{
  Owner, owner_sessions, member_text, or_attribute_error, or_sdk_not_found,
}

-- The request for the temporary image: with its dependencies, and with the source's cleanup.
abbrev pub image_request : String → Request
image_request i = record {
  resource_type = "image";
  resource_id = i;
  cleanup_source = true;
  include_dependencies = true;
  include_members = false;
  dry_run = false;
}

-- `if image_id: kwargs["image_id"] = image_id`
abbrev pub with_image : Option String → Kwargs → Kwargs
with_image i kwargs = if set? i then entry_set "image_id" (text (text_of i)) kwargs else kwargs

module _ {W : Type 0} (conf : Config) (clouds : Clouds W) where
  -- `_get_source_volume_type_id`, by the name of the type.
  unfoldable pub get_source_volume_type_id : Option String → Exec W String
  get_source_volume_type_id name =
      if set? name
      then (do
        found ← clouds.source.find "volume-type" (text_of name) []
        o ← lift (or_sdk_not_found found)
        pure o.id)
      else raise invalid_input

  unfoldable pub volume_type_dependency : Object → Exec W (List Resource)
  volume_type_dependency o = do
    found ← clouds.source.find "volume-type" (text_of (text_attribute o "volume_type")) []
    t ← lift (or_sdk_not_found found)
    pure (dependency "volume-type" t.id ∷ [])

  unfoldable pub volume_associated : String → Exec W (List Resource)
  unfolding report_identity_dependencies volume_type_dependency
  volume_associated i = do
    o ← get_or_raise clouds.source "volume" i
    types ← if conf.preserve_volume_type then volume_type_dependency o else pure []
    pure (
        report_identity_dependencies conf [] (text_attribute o "project_id")
          (text_attribute o "user_id")
        ++ types)

  -- `_upload_source_volume_to_image`
  unfoldable pub upload_source_volume_to_image : Cloud W → Object → Exec W Object
  unfolding wait_for
  upload_source_volume_to_image owner o = do
    rand ← clouds.random_text
    let name = str_append "volmigr-" (str_append o.id (str_append "-" rand))
    response ←
        owner.act "upload_volume_to_image" o.id
          (entry "image_name" (text name) (entry "force" (bool true) end))
    i ← lift (member_text "image_id" response)
    image ← clouds.source.get "image" i
    wait_for clouds.source "image" (id_of image) "active" "error" 5 conf.volume_upload_timeout
    uploaded ← lift (or_attribute_error image)
    again ← clouds.source.get "image" uploaded.id
    lift (or_attribute_error again)

  -- `if CONF.preserve_volume_type: …`
  unfoldable pub with_volume_type : Object → List MigratedResource → Kwargs → Exec W Kwargs
  unfolding get_source_volume_type_id get_associated_resource_destination_id
  with_volume_type o deps kwargs =
      if conf.preserve_volume_type
      then (do
        source_type ← get_source_volume_type_id (text_attribute o "volume_type")
        t ← lift (get_associated_resource_destination_id "volume-type" source_type deps)
        pure (entry_set "volume_type" (text t) kwargs))
      else pure kwargs

  -- `_build_volume_kwargs`
  unfoldable pub build_volume_kwargs :
      Object → Option String → List MigratedResource → Exec W Kwargs
  unfolding with_volume_type copy_fields
  build_volume_kwargs o image deps = do
    kwargs ← with_volume_type o deps (
        copy_fields not_none_or_empty
          (with_field conf.preserve_volume_availability_zone "availability_zone"
            ("description" ∷ "name" ∷ "is_multiattach" ∷ "size" ∷ "metadata" ∷ []))
          o end)
    pure (with_image image kwargs)

  -- The rest of the `try` block, once the image is on the destination.
  unfoldable pub create_volume :
      Cloud W → Object → Option String → List MigratedResource → Exec W String
  unfolding build_volume_kwargs wait_for
  create_volume owner o image deps = do
    kwargs ← build_volume_kwargs o image deps
    created ← owner.create "volume" kwargs
    wait_for clouds.destination "volume" created.id "available" "error" 5 conf.volume_upload_timeout
    let metadata = attribute o "volume_image_metadata"
    when (truth metadata) (
        clouds.destination.act "set_volume_image_metadata" created.id
          (entry "metadata" metadata end)
        >> pure tt)
    pure created.id

  -- The `finally` block.
  unfoldable pub delete_images : String → Option String → Exec W (Unit {0})
  delete_images source destination = do
    clouds.source.delete "image" source
    if set? destination then clouds.destination.delete "image" (text_of destination) else pure tt

  module _ (self : Perform W) where
    -- The migration of the image; an error leads to the `finally` block without an image.
    unfoldable pub migrate_image : Object → Exec (State W) Migration
    unfolding delete_images
    migrate_image image =
        try_except (self (image_request image.id))
          (λ e. on_world (delete_images image.id none) >> raise e)

    -- The `try` and `finally` blocks, for the image that the volume was uploaded to.
    unfoldable pub volume_through_image :
        Owner W → Object → Object → List MigratedResource → Exec (State W) String
    unfolding migrate_image create_volume delete_images
    volume_through_image owner o image deps = do
      m ← migrate_image image
      try_finally (on_world (create_volume owner.owner_destination o m.destination_id deps))
          (on_world (delete_images image.id m.destination_id))

    unfoldable pub volume_perform : String → List MigratedResource → Exec (State W) String
    unfolding get_identity_build_kwargs owner_sessions upload_source_volume_to_image
        volume_through_image
    volume_perform i deps = do
      o ← on_world (get_or_raise clouds.source "volume" i)
      identity ← lift (
          get_identity_build_kwargs conf "project_id" "user_id" deps (text_attribute o "project_id")
            (text_attribute o "user_id"))
      owner ←
          on_world (owner_sessions conf clouds (text_of (text_attribute o "project_id")) identity)
      image ← on_world (upload_source_volume_to_image owner.owner_source o)
      volume_through_image owner o image deps

  unfoldable pub volume_handler : Handler W
  unfolding volume_associated volume_perform
  volume_handler = record {
    service_type = "cinder";
    get_associated_resources = volume_associated;
    get_member_resources = λ i. pure [];
    get_source_resource_ids =
        queried_ids clouds.source "volume" ("project_id" ∷ [])
          (tenant_query "project_id" "project_id" (("all_tenants", "True") ∷ []));
    perform_individual_migration = volume_perform;
    connect_member_resources_to_parent = λ parent members. pure tt;
    delete_source_resource = clouds.source.delete "volume";
  }

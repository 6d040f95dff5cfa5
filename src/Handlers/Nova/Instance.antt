-- ===== src/Handlers/Nova/Instance.antt =====
-- handlers/nova/instance.py: `InstanceHandler`. The disk of an instance that was booted from an image
-- is uploaded to a temporary image, which the manager migrates.
pub mod Lawful
pub mod Temporary
use Prim.Native.String.{◌++◌ as str_append}
use sunbeam_migrate.Prelude.{
  String, Bool, true, false, not, ◌&&◌, ◌||◌, Option, none, some, set?, List, [], ◌∷◌, ◌++◌, ◌==◌,
  if◌then◌else◌,
}
use sunbeam_migrate.Config.{Config}
use sunbeam_migrate.Exec.{
  Result, ok, err, Exec, attribute_error, key_error, pure, raise, lift, try_except, try_finally,
  ◌>>=◌, ◌>>◌,
}
use sunbeam_migrate.Handlers.Interface.{
  Resource, MigratedResource, State, Handler, Request, Perform, on_world,
}
use sunbeam_migrate.Handlers.Base.{
  dependency, text_of, report_identity_dependencies, get_identity_build_kwargs,
  get_associated_resource_destination_id,
}
use sunbeam_migrate.Handlers.Sdk.{
  Value, Items, nil, cons, list, dict, Object, Kwargs, text, num, end, entry, truth, attribute,
  entry_set, copy_fields, member, as_text, items_of, Cloud, Clouds,
}
use sunbeam_migrate.Handlers.Common.{
  text_attribute, id_of, ids, with_field, get_or_raise, queried_ids, tenant_query, wait_for,
  not_none_or_blank,
}
use sunbeam_migrate.Handlers.Owner.{
  Owner, owner_sessions, member_text, or_attribute_error, or_sdk_not_found,
}
use sunbeam_migrate.Handlers.Cinder.Volume.{image_request, with_image}

-- `value.key` of an identifier.
abbrev pub attribute_text : String → Value → Result String
attribute_text k v = elim (as_text (member k v)) [ none ↦ err attribute_error | some s ↦ ok s ]

-- A dependency that is to be cleaned up.
abbrev pub owned_dependency : String → String → Resource
owned_dependency t i = record { resource_type = t; source_id = i; should_cleanup = true }

abbrev pub owned_dependencies : String → List String → List Resource
owned_dependencies t [] = []
owned_dependencies t (i ∷ is) = owned_dependency t i ∷ owned_dependencies t is

-- `volume["id"]` of every attached volume.
unfoldable pub volume_ids : Items → Result (List String)
volume_ids nil = ok []
volume_ids (cons v vs) = elim (member_text "id" v) [
  | err e ↦ err e
  | ok i ↦ elim (volume_ids vs) [ err e ↦ err e | ok is ↦ ok (i ∷ is) ]
]

abbrev pub attached_volumes : Object → Items
attached_volumes o = items_of (attribute o "attached_volumes")

-- `source_instance.image and source_instance.image.get("id")`
abbrev pub booted_from_image : Object → Bool
booted_from_image o = truth (attribute o "image") && truth (member "id" (attribute o "image"))

-- One entry of `block_device_mapping`.
unfoldable pub device_mapping : Value → String → Kwargs
unfolding entry_set
device_mapping attachment volume =
    let mapping = entry "delete_on_termination" (member "delete_on_termination" attachment) (
      entry "uuid" (text volume)
        (entry "source_type" (text "volume") (entry "destination_type" (text "volume") end))) in
    let tagged =
      if truth (member "tag" attachment)
      then entry_set "tag" (member "tag" attachment) mapping
      else mapping in
    let device = member "device" attachment in
    elim (as_text device) [
      | none ↦ tagged
      | some d ↦
          if d == "/dev/sda" || d == "/dev/vda"
          then entry_set "boot_index" (num 0) tagged
          else tagged
    ]

-- `if items: kwargs[key] = items`
abbrev pub with_items : String → Items → Kwargs → Kwargs
with_items k nil kwargs = kwargs
with_items k (cons v vs) kwargs = entry_set k (list (cons v vs)) kwargs

-- The ports on the destination, as `networks` takes them.
unfoldable pub destination_networks : List String → List MigratedResource → Result Items
unfolding get_associated_resource_destination_id
destination_networks [] deps = ok nil
destination_networks (p ∷ ps) deps = elim (get_associated_resource_destination_id "port" p deps) [
  | err e ↦ err e
  | ok d ↦ elim (destination_networks ps deps) [
    | err e ↦ err e
    | ok ds ↦ ok (cons (dict (entry "port" (text d) end)) ds)
  ]
]

module _ {W : Type 0} (conf : Config) (clouds : Clouds W) where
  -- `find_flavor(source_instance.flavor.id)`, whose id is read.
  unfoldable pub source_flavor_id : Object → Exec W String
  source_flavor_id o = do
    f ← lift (attribute_text "id" (attribute o "flavor"))
    found ← clouds.source.find "flavor" f []
    flavor ← lift (or_attribute_error found)
    pure flavor.id

  unfoldable pub keypair_dependency : Object → Exec W (List Resource)
  keypair_dependency o =
      if not conf.multitenant_mode && truth (attribute o "key_name")
      then (do
        found ← clouds.source.find "keypair" (text_of (text_attribute o "key_name")) []
        k ← lift (or_sdk_not_found found)
        pure (dependency "keypair" k.id ∷ []))
      else pure []

  unfoldable pub instance_associated : String → Exec W (List Resource)
  unfolding report_identity_dependencies source_flavor_id keypair_dependency volume_ids
  instance_associated i = do
    o ← get_or_raise clouds.source "server" i
    ports ← clouds.source.list_all "port" (("device_id", o.id) ∷ [])
    flavor ← source_flavor_id o
    keypair ← keypair_dependency o
    volumes ← lift (volume_ids (attached_volumes o))
    pure (
        report_identity_dependencies conf [] (text_attribute o "project_id") none
        ++ owned_dependencies "port" (ids ports)
        ++ dependency "flavor" flavor ∷ keypair
        ++ owned_dependencies "volume" volumes)

  -- `_upload_instance_to_image`
  unfoldable pub upload_instance_to_image : Cloud W → Object → Exec W Object
  unfolding wait_for
  upload_instance_to_image owner o = do
    rand ← clouds.random_text
    response ←
        owner.act "create_server_image" o.id
          (entry "name" (text (str_append "instmigr-" (str_append o.id (str_append "-" rand)))) end)
    i ← lift (attribute_text "id" response)
    image ← clouds.source.get "image" i
    wait_for clouds.source "image" (id_of image) "active" "error" 5 conf.volume_upload_timeout
    uploaded ← lift (or_attribute_error image)
    again ← clouds.source.get "image" uploaded.id
    lift (or_attribute_error again)

  -- `_get_block_device_mapping`
  unfoldable pub get_block_device_mapping : Object → Items → List MigratedResource → Exec W Items
  unfolding device_mapping get_associated_resource_destination_id
  get_block_device_mapping o nil deps = pure nil
  get_block_device_mapping o (cons v vs) deps = do
    i ← lift (member_text "id" v)
    attachment ← clouds.source.act "get_volume_attachment" o.id (entry "volume" (text i) end)
    d ← lift (get_associated_resource_destination_id "volume" i deps)
    more ← get_block_device_mapping o vs deps
    pure (cons (dict (device_mapping attachment d)) more)

  -- `kwargs["key_name"] = …`
  unfoldable pub with_keypair : Object → List MigratedResource → Kwargs → Exec W Kwargs
  unfolding get_associated_resource_destination_id
  with_keypair o deps kwargs =
      if truth (attribute o "key_name") && not conf.multitenant_mode
      then (do
        let name = text_of (text_attribute o "key_name")
        d ← lift (get_associated_resource_destination_id "keypair" name deps)
        found ← clouds.destination.get "keypair" d
        k ← lift (or_attribute_error found)
        pure (entry_set "key_name" (attribute k "name") kwargs))
      else pure kwargs

  -- `_build_instance_kwargs`
  unfoldable pub build_instance_kwargs :
      Object → String → Option String → List MigratedResource → Exec W Kwargs
  unfolding with_keypair destination_networks get_block_device_mapping copy_fields
  build_instance_kwargs o flavor image deps = do
    f ← lift (get_associated_resource_destination_id "flavor" flavor deps)
    kwargs ←
        with_keypair o deps (entry "name" (attribute o "name") (entry "flavor_id" (text f) end))
    ports ← clouds.source.list_all "port" (("device_id", o.id) ∷ [])
    networks ← lift (destination_networks (ids ports) deps)
    mapping ← get_block_device_mapping o (attached_volumes o) deps
    pure (
        copy_fields not_none_or_blank
          (with_field conf.preserve_instance_availability_zone "availability_zone"
            ("metadata" ∷ "user_data" ∷ "config_drive" ∷ "description" ∷ []))
          o
          (with_items "block_device_mapping_v2" mapping
            (with_image image (with_items "networks" networks kwargs))))

  -- The second `try` block.
  unfoldable pub create_instance :
      Cloud W → Object → String → Option String → List MigratedResource → Exec W String
  unfolding build_instance_kwargs wait_for
  create_instance owner o flavor image deps = do
    kwargs ← build_instance_kwargs o flavor image deps
    created ← owner.create "server" kwargs
    wait_for clouds.destination "server" created.id "ACTIVE" "ERROR" 5
        conf.resource_creation_timeout
    pure created.id

  -- The temporary images: the one on the source, and the one on the destination.
  abbrev pub delete_source_image : Option String → Exec W (Unit {0})
  delete_source_image none = pure tt
  delete_source_image (some i) = clouds.source.delete "image" i

  unfoldable pub delete_temporary_images : Option String × Option String → Exec W (Unit {0})
  delete_temporary_images (source, destination) = do
    delete_source_image source
    if set? destination then clouds.destination.delete "image" (text_of destination) else pure tt

  -- The second `try` block with its `finally` block, for the temporary images.
  unfoldable pub instance_create :
      Cloud W
      → Object
      → String
      → Option String × Option String
      → List MigratedResource
      → Exec (State W) String
  unfolding create_instance delete_temporary_images
  instance_create owner o flavor images deps =
      try_finally (on_world (create_instance owner o flavor images.1 deps))
        (on_world (delete_temporary_images images))

  module _ (self : Perform W) where
    -- The temporary image is migrated; on an error it is deleted, and the error is raised again.
    unfoldable pub migrate_instance_image :
        Cloud W → Object → Exec (State W) (Option String × Option String)
    unfolding upload_instance_to_image
    migrate_instance_image owner o =
        if booted_from_image o
        then (do
          image ← on_world (upload_instance_to_image owner o)
          m ←
              try_except (self (image_request image.id))
                (λ e. on_world (clouds.source.delete "image" image.id) >> raise e)
          pure (some image.id, m.destination_id))
        else pure (none, none)

    unfoldable pub instance_perform : String → List MigratedResource → Exec (State W) String
    unfolding get_identity_build_kwargs owner_sessions source_flavor_id migrate_instance_image
        instance_create
    instance_perform i deps = do
      o ← on_world (get_or_raise clouds.source "server" i)
      flavor ← on_world (source_flavor_id o)
      identity ← lift (
          get_identity_build_kwargs conf "project_id" "user_id" deps (text_attribute o "project_id")
            none)
      owner ←
          on_world (owner_sessions conf clouds (text_of (text_attribute o "project_id")) identity)
      images ← migrate_instance_image owner.owner_source o
      instance_create owner.owner_destination o flavor images deps

  unfoldable pub instance_handler : Handler W
  unfolding instance_associated instance_perform
  instance_handler = record {
    service_type = "nova";
    get_associated_resources = instance_associated;
    get_member_resources = λ i. pure [];
    get_source_resource_ids =
        queried_ids clouds.source "server" ("project_id" ∷ [])
          (tenant_query "project_id" "project_id" (("all_tenants", "True") ∷ []));
    perform_individual_migration = instance_perform;
    connect_member_resources_to_parent = λ parent members. pure tt;
    delete_source_resource = clouds.source.delete "server";
  }

-- ===== src/Handlers/Glance/Image.antt =====
-- handlers/glance/image.py: `ImageHandler`. The download, the upload and MD5 are parameters.
pub mod Checksums
use sunbeam_migrate.Prelude.{
  ℕ, zero, suc, String, Bool, not, ◌&&◌, opt_eq, Option, none, some, set?, List, [], ◌∷◌, nat_eq,
  if◌then◌else◌,
}
use sunbeam_migrate.Config.{Config}
use sunbeam_migrate.Exec.{
  Exec, Result, ok, err, invalid, invalid_input, pure, raise, lift, attempt, result_map, ◌>>=◌,
  ◌>>◌,
}
use sunbeam_migrate.Handlers.Interface.{Resource, MigratedResource, Handler, on_world}
use sunbeam_migrate.Handlers.Base.{report_identity_dependencies, get_identity_build_kwargs}
use sunbeam_migrate.Handlers.Sdk.{Object, Kwargs, end, truth, copy_fields, update_kwargs, Clouds}
use sunbeam_migrate.Handlers.Common.{text_attribute, get_or_raise, queried_ids, tenant_query}
use sunbeam_migrate.Handlers.Owner.{or_attribute_error}

unfoldable pub image_fields : List String
image_fields =
    "name" ∷ "container_format" ∷ "disk_format" ∷ "min_disk" ∷ "min_ram" ∷ "protected" ∷ "is_hidden"
    ∷ "is_protected" ∷ "hash_algo" ∷ "hash_value" ∷ "visibility" ∷ "architecture"
    ∷ "hypervisor_type" ∷ "instance_type_rxtx_factor" ∷ "instance_uuid" ∷ "needs_config_drive"
    ∷ "kernel_id" ∷ "os_distro" ∷ "os_version" ∷ "needs_secure_boot" ∷ "os_shutdown_timeout"
    ∷ "ramdisk_id" ∷ "vm_mode" ∷ "hw_cpu_sockets" ∷ "hw_cpu_cores" ∷ "hw_cpu_threads"
    ∷ "hw_disk_bus" ∷ "hw_cpu_policy" ∷ "hw_cpu_thread_policy" ∷ "hw_rng_model" ∷ "hw_machine_type"
    ∷ "hw_scsi_model" ∷ "hw_serial_port_count" ∷ "hw_video_model" ∷ "hw_video_ram"
    ∷ "hw_watchdog_action" ∷ "os_command_line" ∷ "hw_vif_model" ∷ "is_hw_vif_multiqueue_enabled"
    ∷ "is_hw_boot_menu_enabled" ∷ "vmware_adaptertype" ∷ "vmware_ostype" ∷ "has_auto_disk_config"
    ∷ "os_type" ∷ "os_admin_user" ∷ "hw_qemu_guest_agent" ∷ "os_require_quiesce" ∷ []

-- The chunks of an image and the header "Content-MD5" of the response; the upload of the chunks
-- that the reader yields, or of what it yields until it raises.
pub record Transfer (W : Type 0) : Type 0 where
  pub download_image : String → ℕ → Exec W (List String × String)
  pub hexdigest : List String → String
  pub create_image : Result (List String) → Kwargs → Exec W Object

-- `not destination_image.checksum or not source_image.checksum`, or they are equal.
unfoldable pub checksums_agree : Object → Object → Bool
checksums_agree o created =
    let a = text_attribute o "checksum" in
    let b = text_attribute created "checksum" in not (set? b && set? a && not (opt_eq b a))

module _ {W : Type 0} (conf : Config) (clouds : Clouds W) where
  unfoldable pub image_dependencies : Object → List Resource
  unfolding report_identity_dependencies
  image_dependencies o = report_identity_dependencies conf [] (text_attribute o "owner_id") none

  unfoldable pub image_associated : String → Exec W (List Resource)
  unfolding image_dependencies
  image_associated i = do o ← get_or_raise clouds.source "image" i; pure (image_dependencies o)

  -- The arguments of `create_image`, but for the data.
  unfoldable pub image_kwargs : Object → List MigratedResource → Result Kwargs
  unfolding image_fields copy_fields get_identity_build_kwargs update_kwargs
  image_kwargs o deps =
      result_map (λ identity. update_kwargs identity (copy_fields truth image_fields o end))
        (get_identity_build_kwargs conf "owner" "user_id" deps (text_attribute o "owner_id") none)

  module _ (transfer : Transfer W) where
    -- `_chunked_image_reader`
    unfoldable pub chunked_image_reader : Object → ℕ → Exec W (List String)
    chunked_image_reader o chunk_size = if nat_eq chunk_size 0 then raise invalid_input else (do
      response ← transfer.download_image o.id chunk_size
      let digest = transfer.hexdigest response.0
      if set? (text_attribute o "checksum") && not (opt_eq (some digest) (some response.1))
          then raise invalid
          else pure response.0)

    unfoldable pub image_perform : String → List MigratedResource → Exec W String
    unfolding image_kwargs chunked_image_reader checksums_agree
    image_perform i deps = do
      o ← get_or_raise clouds.source "image" i
      kwargs ← lift (image_kwargs o deps)
      chunks ← attempt (chunked_image_reader o conf.image_transfer_chunk_size)
      uploaded ← transfer.create_image chunks kwargs
      found ← clouds.destination.get "image" uploaded.id
      created ← lift (or_attribute_error found)
      if checksums_agree o created then pure created.id else raise invalid

    unfoldable pub image_handler : Handler W
    unfolding image_associated image_perform
    image_handler = record {
      service_type = "glance";
      get_associated_resources = image_associated;
      get_member_resources = λ i. pure [];
      get_source_resource_ids =
          queried_ids clouds.source "image" ("project_id" ∷ [])
            (tenant_query "project_id" "owner" []);
      perform_individual_migration = λ self i deps. on_world (image_perform i deps);
      connect_member_resources_to_parent = λ parent members. pure tt;
      delete_source_resource = clouds.source.delete "image";
    }

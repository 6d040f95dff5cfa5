-- ===== src/Config.antt =====
-- sunbeam_migrate/config.py: the settings that the modelled code reads.
use sunbeam_migrate.Prelude.{ℕ, String, Bool, Option}

pub record Config : Type 0 where
  pub cloud_config_file : Option String
  pub source_cloud_name : Option String
  pub destination_cloud_name : Option String
  pub multitenant_mode : Bool
  pub preserve_network_availability_zone : Bool
  pub preserve_router_availability_zone : Bool
  pub preserve_network_segmentation_id : Bool
  pub preserve_router_ip : Bool
  pub preserve_port_floating_ip : Bool
  pub preserve_port_mac_address : Bool
  pub preserve_port_fixed_ips : Bool
  pub preserve_port_floating_ip_address : Bool
  pub preserve_load_balancer_availability_zone : Bool
  pub preserve_instance_availability_zone : Bool
  pub preserve_volume_type : Bool
  pub preserve_volume_availability_zone : Bool
  pub preserve_share_type : Bool
  pub preserve_share_access_rules : Bool
  pub manila_local_access_ip : Option String
  pub temporary_migration_dir : String
  pub volume_upload_timeout : ℕ
  pub resource_creation_timeout : ℕ
  pub image_transfer_chunk_size : ℕ
  pub member_role_name : String

-- ===== src/Tests/World.antt =====
-- Two clouds whose state is the number of resources created, and the handlers on them.
use sunbeam_migrate.Prelude.{
  ℕ, suc, String, ◌≡◌, refl, true, false, Bool-cases, inl, inr, none, some, [], ◌∷◌, ◌==◌,
  if◌then◌else◌,
}
use sunbeam_migrate.Exec.{ok, pure}
use sunbeam_migrate.Config.{Config}
use sunbeam_migrate.Handlers.Interface.{State, Handler, IsHandler}
use sunbeam_migrate.Handlers.Sdk.{null, Object, text, end, entry, Cloud, Clouds, IsCloud}
use sunbeam_migrate.Handlers.Common.{get_or_raise}
use sunbeam_migrate.Handlers.Neutron.Network.{network_handler, network_associated, network_members}
use sunbeam_migrate.Handlers.Neutron.Subnet.{subnet_handler, subnet_associated}
use sunbeam_migrate.Handlers.Neutron.Lawful.{network_handler-IsHandler, subnet_handler-IsHandler}
use sunbeam_migrate.Manager.Env.{Env, IsEnv}
use sunbeam_migrate.Manager.DryRun.Unchanged.{QueriesKeep}
use sunbeam_migrate.Tests.Database.{backend, backend-IsBackend}

abbrev pub conf : Config
conf = record {
  cloud_config_file = none;
  source_cloud_name = some "source";
  destination_cloud_name = some "destination";
  multitenant_mode = false;
  preserve_network_availability_zone = false;
  preserve_router_availability_zone = false;
  preserve_network_segmentation_id = false;
  preserve_router_ip = true;
  preserve_port_floating_ip = true;
  preserve_port_mac_address = true;
  preserve_port_fixed_ips = true;
  preserve_port_floating_ip_address = true;
  preserve_load_balancer_availability_zone = false;
  preserve_instance_availability_zone = false;
  preserve_volume_type = false;
  preserve_volume_availability_zone = false;
  preserve_share_type = true;
  preserve_share_access_rules = true;
  manila_local_access_ip = none;
  temporary_migration_dir = "/tmp/migration_dir";
  volume_upload_timeout = 1800;
  resource_creation_timeout = 300;
  image_transfer_chunk_size = 1024;
  member_role_name = "member";
}

-- Every resource has the network "net".
abbrev pub resource : String → Object
resource i = record {
  id = i;
  attributes = entry "network_id" (text "net") (entry "name" (text i) end);
}

abbrev pub cloud : Cloud ℕ
cloud = record {
  get = λ kind i w. (ok (some (resource i)), w);
  find = λ kind name filters w. (ok none, w);
  list_all = λ kind filters w. (ok (resource "sub" ∷ []), w);
  create = λ kind kwargs w. (ok (resource "new"), suc w);
  update = λ kind i kwargs. pure tt;
  delete = λ kind i. pure tt;
  add_interface_to_router = λ router subnet. pure tt;
  act = λ operation i kwargs. pure null;
}

abbrev pub clouds : Clouds ℕ
clouds = record {
  source = cloud;
  destination = cloud;
  source_as = λ project. cloud;
  destination_as = λ project. cloud;
  random_text = pure "7";
  set_order = λ xs. xs;
}

pub cloud-IsCloud : IsCloud cloud
cloud-IsCloud = record {
  created_id = λ kind kwargs w {o} e. let same : resource "new" ≡ o = cc e in rw⁻¹ same refl;
  found_id = λ kind name kwargs w {o} e. absurd (cc e);
}

abbrev pub subnet_path : String
subnet_path = "sunbeam_migrate.handlers.neutron.subnet.SubnetHandler"

abbrev pub load : String → Handler ℕ
load path = if path == subnet_path then subnet_handler conf clouds else network_handler conf clouds

load-IsHandler : (path : String) → IsHandler (load path)
load-IsHandler path = elim (Bool-cases (path == subnet_path)) [
  | inl e ↦ rw e (subnet_handler-IsHandler conf clouds cloud-IsCloud)
  | inr e ↦ rw e (network_handler-IsHandler conf clouds cloud-IsCloud)
]

abbrev pub env : Env ℕ
env = record { conf = conf; backend = backend; load = load; repr = λ e. "error" }

pub env-IsEnv : IsEnv env
env-IsEnv = record { backend = backend-IsBackend; handlers = load-IsHandler }

abbrev pub start : State ℕ
start = record { db = record { rows = []; readings = 0 }; world = 0 }

-- The queries of the handlers leave the clouds as they are.
pub queries-QueriesKeep : (s : State ℕ) → QueriesKeep env (λ x. x ≡ s)
unfolding subnet_handler network_handler subnet_associated network_associated network_members
    get_or_raise
queries-QueriesKeep s = record {
  associated = λ path i. elim (Bool-cases (path == subnet_path)) [
    | inl e ↦ rw e (record { after = λ x h. h })
    | inr e ↦ rw e (record { after = λ x h. h })
  ];
  members = λ path i. elim (Bool-cases (path == subnet_path)) [
    | inl e ↦ rw e (record { after = λ x h. h })
    | inr e ↦ rw e (record { after = λ x h. h })
  ];
}

-- ===== src/Tests/Handlers.antt =====
-- The handlers on concrete clouds: temporary images, load balancers, ports and images.
use sunbeam_migrate.Prelude.{ℕ, String, ◌≡◌, refl, true, false, none, some, List, [], ◌∷◌, set?}
use sunbeam_migrate.Exec.{ok, IsOk, raise, pure, invalid}
use sunbeam_migrate.Db.Models.{empty_migration}
use sunbeam_migrate.Config.{Config}
use sunbeam_migrate.Handlers.Interface.{State, MigratedResource, Perform, IsHandler}
use sunbeam_migrate.Handlers.Base.{contains, dependency, get_associated_resource_destination_id}
use sunbeam_migrate.Handlers.Base.Covers.{Covers}
use sunbeam_migrate.Handlers.Sdk.{
  null, text, list, dict, nil, cons, end, entry, entry_get, Kwargs, Object, Cloud, Clouds,
  attribute, not_none,
}
use sunbeam_migrate.Handlers.Common.{text_attribute, get_or_raise}
use sunbeam_migrate.Handlers.Owner.{Owner}
use sunbeam_migrate.Handlers.Owner.Lawful.{IsDestination}
use sunbeam_migrate.Handlers.Cinder.Volume.{volume_handler, volume_through_image}
use sunbeam_migrate.Handlers.Cinder.Volume.Lawful.{volume_handler-IsHandler}
use sunbeam_migrate.Handlers.Cinder.Volume.Temporary.{volume_through_image-Leaves}
use sunbeam_migrate.Handlers.Nova.Instance.{instance_handler, instance_create}
use sunbeam_migrate.Handlers.Nova.Instance.Lawful.{instance_handler-IsHandler}
use sunbeam_migrate.Handlers.Nova.Instance.Temporary.{instance_create-Leaves}
use sunbeam_migrate.Handlers.Glance.Image.{Transfer, image_perform}
use sunbeam_migrate.Handlers.Glance.Image.Checksums.{Verified, image_perform-Verified}
use sunbeam_migrate.Handlers.Neutron.Port.{port_dependencies, port_kwargs}
use sunbeam_migrate.Handlers.Neutron.Port.Complete.{port_kwargs-IsOk}
use sunbeam_migrate.Handlers.Octavia.Create.{load_balancer_kwargs, member_kwargs}
use sunbeam_migrate.Handlers.Octavia.LoadBalancer.{load_balancer_dependencies}
use sunbeam_migrate.Handlers.Octavia.LoadBalancer.Complete.{load_balancer_kwargs-IsOk}
use sunbeam_migrate.Handlers.Octavia.LoadBalancer.Member.{Placed, member_kwargs-Placed}
use sunbeam_migrate.Tests.World.{conf, cloud, clouds, cloud-IsCloud, resource, start}

clouds-IsDestination : IsDestination clouds
clouds-IsDestination = record { own = cloud-IsCloud; as_project = λ p. cloud-IsCloud }

abbrev owned : Config
owned = record conf { multitenant_mode = true }

volume_handler-IsHandler_example : IsHandler (volume_handler owned clouds)
volume_handler-IsHandler_example = volume_handler-IsHandler owned clouds clouds-IsDestination

instance_handler-IsHandler_example : IsHandler (instance_handler owned clouds)
instance_handler-IsHandler_example = instance_handler-IsHandler owned clouds clouds-IsDestination

-- The ids of the deletions that the source was asked for.
abbrev logged : (String → List String → List String) → Cloud (List String)
logged log = record {
  get = λ kind i w. (ok (some (resource i)), w);
  find = λ kind name filters w. (ok none, w);
  list_all = λ kind filters w. (ok [], w);
  create = λ kind kwargs. raise invalid;
  update = λ kind i kwargs. pure tt;
  delete = λ kind i w. (ok tt, log i w);
  add_interface_to_router = λ router subnet. pure tt;
  act = λ operation i kwargs. pure null;
}

abbrev logging : Clouds (List String)
logging = record {
  source = logged (λ i w. i ∷ w);
  destination = logged (λ i w. w);
  source_as = λ project. logged (λ i w. i ∷ w);
  destination_as = λ project. logged (λ i w. w);
  random_text = pure "7";
  set_order = λ xs. xs;
}

abbrev Deleted : List String → Type 0
Deleted w = contains "image" w ≡ true

abbrev before : State (List String)
before = record { db = start.db; world = [] }

abbrev owner : Owner (List String)
owner = record { owner_source = logging.source; owner_destination = logging.destination }

-- A manager that migrates every image to "copy".
abbrev manager : Perform (List String)
manager q = pure (record empty_migration { destination_id = some "copy" })

volume_through_image-Leaves_example :
    Deleted
      (volume_through_image conf logging manager owner
        (resource "volume")
        (resource "image")
        []
        before).1.world
volume_through_image-Leaves_example =
    volume_through_image-Leaves conf logging Deleted manager owner (resource "volume")
      (resource "image") [] (λ w. refl) (λ d w p. p) before

instance_create-Leaves_example :
    Deleted
      (instance_create conf logging logging.destination
        (resource "server")
        "flavor"
        (some "image", some "copy")
        []
        before).1.world
instance_create-Leaves_example =
    instance_create-Leaves conf logging Deleted logging.destination (resource "server") "flavor"
      "image" (some "copy") [] (λ w. refl) (λ d w p. p) before

abbrev entry_for : String → String → String → MigratedResource
entry_for t i d = record {
  resource_type = t;
  source_id = i;
  should_cleanup = false;
  destination_id = d;
}

abbrev deps : List MigratedResource
deps =
    entry_for "project" "p1" "p2"
    ∷ entry_for "network" "n1" "n2"
    ∷ entry_for "subnet" "s1" "s2"
    ∷ entry_for "security-group" "g1" "g2"
    ∷ entry_for "floating-ip" "f1" "f2"
    ∷ []

-- A load balancer, and a port, on the network "n1".
abbrev balancer : Object
balancer = record {
  id = "lb1";
  attributes =
      entry "project_id" (text "p1")
        (entry "vip_subnet_id" (text "s1") (entry "vip_network_id" (text "n1") end));
}

balancer-Covers : Covers deps (
    load_balancer_dependencies owned clouds balancer
      (dependency "subnet" "s1" ∷ [])
      (resource "f1" ∷ []))
unfolding load_balancer_dependencies get_associated_resource_destination_id entry_get
balancer-Covers = (("p2", refl), (("s2", refl), (("n2", refl), (("s2", refl), (("f2", refl), tt)))))

load_balancer_kwargs-IsOk_example : IsOk (load_balancer_kwargs owned balancer deps)
load_balancer_kwargs-IsOk_example =
    load_balancer_kwargs-IsOk owned clouds balancer (dependency "subnet" "s1" ∷ [])
      (resource "f1" ∷ []) deps balancer-Covers

-- A member on a subnet that was not migrated.
abbrev stray : Object
stray = record { id = "m1"; attributes = entry "subnet_id" (text "s9") end }

member_kwargs-Placed_example :
    (kwargs : Kwargs) × (member_kwargs stray deps ≡ ok kwargs)
    × Placed deps (some "s9") (entry_get "subnet_id" kwargs)
unfolding entry_get
member_kwargs-Placed_example = member_kwargs-Placed stray deps

abbrev port : Object
port = record {
  id = "port1";
  attributes = entry "project_id" (text "p1") (
      entry "network_id" (text "n1") (
        entry "security_group_ids" (list (cons (text "g1") nil))
          (entry "fixed_ips" (list (cons (dict (entry "subnet_id" (text "s1") end)) nil)) end)));
}

port-Covers : Covers deps (port_dependencies owned clouds port)
unfolding port_dependencies get_associated_resource_destination_id entry_get
port-Covers = (("p2", refl), (("n2", refl), (("s2", refl), (("g2", refl), tt))))

port-named : set? (text_attribute port "network_id") ≡ true
unfolding entry_get
port-named = refl

port-listed : not_none (attribute port "security_group_ids") ≡ true
unfolding entry_get
port-listed = refl

port_kwargs-IsOk_example : IsOk (port_kwargs owned clouds port deps)
port_kwargs-IsOk_example =
    port_kwargs-IsOk owned clouds port deps port-named port-listed port-Covers

-- Images with a checksum, of one chunk.
abbrev hashed : String → Object
hashed i = record { id = i; attributes = entry "checksum" (text "digest") end }

abbrev image_cloud : Cloud ℕ
image_cloud = record cloud { get = λ kind i w. (ok (some (hashed i)), w) }

abbrev image_clouds : Clouds ℕ
image_clouds = record clouds { source = image_cloud; destination = image_cloud }

abbrev transfer : Transfer ℕ
transfer = record {
  download_image = λ i size. pure ("data" ∷ [], "digest");
  hexdigest = λ chunks. "digest";
  create_image = λ chunks kwargs. pure (hashed "copy");
}

image_perform-ok : (image_perform conf image_clouds transfer "image" [] 0).0 ≡ ok "copy"
unfolding image_perform get_or_raise entry_get
image_perform-ok = refl

image_perform-Verified_example : Verified image_clouds "image" "copy" 0
image_perform-Verified_example =
    image_perform-Verified conf image_clouds transfer "image" [] 0 image_perform-ok

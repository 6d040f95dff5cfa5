-- ===== src/Tests/Services.antt =====
-- The handlers of networks, zones, shares and secrets on concrete clouds.
use Prim.Native.String.{◌++◌ as str_append}
use sunbeam_migrate.Prelude.{
  ◌&&◌, ℕ, String, ◌≡◌, refl, true, false, Option, none, some, List, [], ◌∷◌, ◌++◌, ◌==◌,
  if◌then◌else◌,
}
use sunbeam_migrate.Exec.{Exec, ok, err, sdk_not_found, invalid, pure, raise}
use sunbeam_migrate.Config.{Config}
use sunbeam_migrate.Handlers.Interface.{IsHandler}
use sunbeam_migrate.Handlers.Sdk.{null, text, end, entry, Object, Kwargs, Cloud, Clouds}
use sunbeam_migrate.Handlers.Neutron.Network.{network_handler}
use sunbeam_migrate.Handlers.Neutron.Subnet.{subnet_handler}
use sunbeam_migrate.Handlers.Neutron.Router.{router_handler}
use sunbeam_migrate.Handlers.Neutron.Port.{port_handler}
use sunbeam_migrate.Handlers.Neutron.FloatingIp.{Addresses, floating_ip_handler}
use sunbeam_migrate.Handlers.Neutron.SecurityGroup.{security_group_handler}
use sunbeam_migrate.Handlers.Neutron.SecurityGroupRule.{security_group_rule_handler}
use sunbeam_migrate.Handlers.Keystone.Domain.{domain_handler}
use sunbeam_migrate.Handlers.Keystone.Project.{project_handler}
use sunbeam_migrate.Handlers.Keystone.Role.{role_handler}
use sunbeam_migrate.Handlers.Keystone.User.{user_handler}
use sunbeam_migrate.Handlers.Nova.Flavor.{flavor_handler}
use sunbeam_migrate.Handlers.Nova.Keypair.{keypair_handler}
use sunbeam_migrate.Handlers.Cinder.VolumeType.{volume_type_handler}
use sunbeam_migrate.Handlers.Barbican.Secret.{secret_handler}
use sunbeam_migrate.Handlers.Barbican.SecretContainer.{secret_container_handler}
use sunbeam_migrate.Handlers.Manila.Share.{share_handler}
use sunbeam_migrate.Handlers.Designate.Zone.{zone_handler}
use sunbeam_migrate.Handlers.Lawful.{handlers-IsHandler}
use sunbeam_migrate.Handlers.Designate.Zone.{copy_each}
use sunbeam_migrate.Handlers.Designate.Zone.Recordsets.{copied, copy_each-copied}
use sunbeam_migrate.Handlers.Manila.Mount.{Host, with_new_rule}
use sunbeam_migrate.Handlers.Manila.Mount.Temporary.{rule_request, Outcome, with_new_rule-Outcome}
use sunbeam_migrate.Handlers.Barbican.Url.{has_slash, parse_barbican_url}
use sunbeam_migrate.Handlers.Barbican.Url.Reference.{parse_barbican_url-reference}
use sunbeam_migrate.Manager.Parent.{is_empty}
use sunbeam_migrate.Tests.World.{conf, cloud, clouds, cloud-IsCloud, resource}

abbrev owned : Config
owned = record conf { multitenant_mode = true }

abbrev addresses : Addresses
addresses = record { is_address = λ a. true; in_network = λ a cidr. some true }

abbrev rule_id : String → Option String
rule_id details = some details

-- A cloud that records the creations, and that cannot create the first of them.
abbrev recorder : Cloud (List Kwargs)
recorder = record {
  get = λ kind i w. (ok none, w);
  find = λ kind name filters w. (ok none, w);
  list_all = λ kind filters w. (ok [], w);
  create = λ kind kwargs w.
      (if is_empty w then err sdk_not_found else ok (resource "new"), w ++ kwargs ∷ []);
  update = λ kind i kwargs. pure tt;
  delete = λ kind i. pure tt;
  add_interface_to_router = λ router subnet. pure tt;
  act = λ operation i kwargs. pure null;
}

abbrev recording : Clouds (List Kwargs)
recording = record {
  source = recorder;
  destination = recorder;
  source_as = λ project. recorder;
  destination_as = λ project. recorder;
  random_text = pure "7";
  set_order = λ xs. xs;
}

abbrev recordset : String → Object
recordset t = record { id = t; attributes = entry "type" (text t) end }

abbrev recordsets : List Object
recordsets = recordset "SOA" ∷ recordset "A" ∷ recordset "NS" ∷ recordset "MX" ∷ []

copy_each-copied_example :
    ((copy_each conf recording recorder "zone" recordsets []).0 ≡ ok tt)
    × ((copy_each conf recording recorder "zone" recordsets []).1 ≡ [] ++ copied "zone" recordsets)
copy_each-copied_example =
    copy_each-copied conf recording recorder (λ w. w) (λ kwargs w. refl) "zone" recordsets []

abbrev host : Host ℕ
host = record {
  gethostbyname = λ name. pure "10.0.0.1";
  route_sources = λ ip. pure ("10.0.0.2" ∷ []);
  makedirs = λ path. pure tt;
  rmdir = λ path. pure tt;
  random_name = pure "7";
  check_call = λ command. pure tt;
}

-- The state is the number of access rules, of which there is at most one.
abbrev rules : Cloud ℕ
rules = record cloud {
  create = λ kind kwargs w. (ok (resource "rule"), 1);
  act = λ operation i kwargs w.
      if operation == "delete_access_rule" && i == "rule" then (ok null, 0) else (ok null, w);
}

abbrev failing : Exec ℕ (Unit {0})
failing = raise invalid

with_new_rule-Outcome_example :
    Outcome rules
      (resource "share")
      (rules.create "access-rule" (rule_request (resource "share") "10.0.0.2" "rw") 0)
      (with_new_rule conf host rules (resource "share") "10.0.0.2" "rw" failing 0)
with_new_rule-Outcome_example =
    with_new_rule-Outcome conf host rules (resource "share") "10.0.0.2" "rw" failing 0

no_slash : has_slash "abc" ≡ false
unfolding has_slash
no_slash = refl

parse_barbican_url-reference_example :
    parse_barbican_url (str_append "https://barbican/v1/secrets" (str_append "/" "abc")) ≡ "abc"
parse_barbican_url-reference_example =
    parse_barbican_url-reference "https://barbican/v1/secrets" "abc" no_slash

abbrev b64encode : String → String
b64encode s = s

handlers-IsHandler_example :
    IsHandler (network_handler owned clouds)
    × IsHandler (subnet_handler owned clouds)
    × IsHandler (router_handler owned clouds)
    × IsHandler (port_handler owned clouds)
    × IsHandler (floating_ip_handler owned clouds addresses)
    × IsHandler (security_group_handler owned clouds)
    × IsHandler (security_group_rule_handler owned clouds rule_id)
    × IsHandler (domain_handler clouds)
    × IsHandler (project_handler clouds)
    × IsHandler (role_handler clouds)
    × IsHandler (user_handler clouds)
    × IsHandler (flavor_handler clouds)
    × IsHandler (keypair_handler clouds)
    × IsHandler (volume_type_handler clouds)
    × IsHandler (secret_handler b64encode clouds)
    × IsHandler (secret_container_handler clouds)
    × IsHandler (share_handler owned clouds host)
    × IsHandler (zone_handler owned clouds)
handlers-IsHandler_example =
    handlers-IsHandler owned clouds host addresses rule_id b64encode
      (record { own = cloud-IsCloud; as_project = λ project. cloud-IsCloud })

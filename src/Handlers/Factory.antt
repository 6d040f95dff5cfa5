-- ===== src/Handlers/Factory.antt =====
-- handlers/factory.py: the registry of handlers. The class that a dotted path names comes from
-- `importlib`, a parameter.
pub mod Loaded
pub mod Distinct
use sunbeam_migrate.Prelude.{
  String, Option, none, some, List, [], ◌∷◌, ◌==◌, set?, not, if◌then◌else◌,
}
use sunbeam_migrate.Exec.{Result, ok, err, invalid_input}
use sunbeam_migrate.Handlers.Base.{text_of}

abbrev pub Registry : Type 0
Registry = List (String × String)

unfoldable pub migration_handlers : Registry
migration_handlers =
    ("secret", "sunbeam_migrate.handlers.barbican.secret.SecretHandler")
    ∷ (
      "secret-container",
      "sunbeam_migrate.handlers.barbican.secret_container.SecretContainerHandler",
    )
    ∷ ("volume", "sunbeam_migrate.handlers.cinder.volume.VolumeHandler")
    ∷ ("volume-type", "sunbeam_migrate.handlers.cinder.volume_type.VolumeTypeHandler")
    ∷ ("dns-zone", "sunbeam_migrate.handlers.designate.zone.ZoneHandler")
    ∷ ("image", "sunbeam_migrate.handlers.glance.image.ImageHandler")
    ∷ ("domain", "sunbeam_migrate.handlers.keystone.domain.DomainHandler")
    ∷ ("project", "sunbeam_migrate.handlers.keystone.project.ProjectHandler")
    ∷ ("role", "sunbeam_migrate.handlers.keystone.role.RoleHandler")
    ∷ ("user", "sunbeam_migrate.handlers.keystone.user.UserHandler")
    ∷ ("share", "sunbeam_migrate.handlers.manila.share.ShareHandler")
    ∷ ("share-type", "sunbeam_migrate.handlers.manila.share_type.ShareTypeHandler")
    ∷ ("flavor", "sunbeam_migrate.handlers.nova.flavor.FlavorHandler")
    ∷ ("instance", "sunbeam_migrate.handlers.nova.instance.InstanceHandler")
    ∷ ("keypair", "sunbeam_migrate.handlers.nova.keypair.KeypairHandler")
    ∷ ("floating-ip", "sunbeam_migrate.handlers.neutron.floating_ip.FloatingIPHandler")
    ∷ ("router", "sunbeam_migrate.handlers.neutron.router.RouterHandler")
    ∷ ("network", "sunbeam_migrate.handlers.neutron.network.NetworkHandler")
    ∷ ("subnet", "sunbeam_migrate.handlers.neutron.subnet.SubnetHandler")
    ∷ ("port", "sunbeam_migrate.handlers.neutron.port.PortHandler")
    ∷ ("security-group", "sunbeam_migrate.handlers.neutron.security_group.SecurityGroupHandler")
    ∷ (
      "security-group-rule",
      "sunbeam_migrate.handlers.neutron.security_group_rule.SecurityGroupRuleHandler",
    )
    ∷ ("load-balancer", "sunbeam_migrate.handlers.octavia.load_balancer.LoadBalancerHandler")
    ∷ []

unfoldable pub registry_get : String → Registry → Option String
registry_get t [] = none
registry_get t ((k, path) ∷ rest) = if t == k then some path else registry_get t rest

module _ {ℓ} {H : Type ℓ} (load : String → H) where
  unfoldable pub get_migration_handler : Option String → Result H
  get_migration_handler resource_type =
      if not (set? resource_type)
      then err invalid_input
      else elim (registry_get (text_of resource_type) migration_handlers) [
        | none ↦ err invalid_input
        | some path ↦ ok (load path)
      ]

-- ===== src/Handlers/Lawful.antt =====
-- The handlers that reach the clouds alone keep what the manager relies on.
use sunbeam_migrate.Prelude.{String, Option}
use sunbeam_migrate.Config.{Config}
use sunbeam_migrate.Handlers.Interface.{IsHandler}
use sunbeam_migrate.Handlers.Sdk.{Clouds}
use sunbeam_migrate.Handlers.Owner.Lawful.{IsDestination}
use sunbeam_migrate.Handlers.Neutron.Network.{network_handler}
use sunbeam_migrate.Handlers.Neutron.Subnet.{subnet_handler}
use sunbeam_migrate.Handlers.Neutron.Router.{router_handler}
use sunbeam_migrate.Handlers.Neutron.Port.{port_handler}
use sunbeam_migrate.Handlers.Neutron.FloatingIp.{Addresses, floating_ip_handler}
use sunbeam_migrate.Handlers.Neutron.SecurityGroup.{security_group_handler}
use sunbeam_migrate.Handlers.Neutron.SecurityGroupRule.{security_group_rule_handler}
use sunbeam_migrate.Handlers.Neutron.Lawful.{
  network_handler-IsHandler, subnet_handler-IsHandler, router_handler-IsHandler,
}
use sunbeam_migrate.Handlers.Neutron.Lawful.Ports.{
  port_handler-IsHandler, floating_ip_handler-IsHandler,
}
use sunbeam_migrate.Handlers.Neutron.Lawful.Groups.{
  security_group_handler-IsHandler, security_group_rule_handler-IsHandler,
}
use sunbeam_migrate.Handlers.Keystone.Domain.{domain_handler}
use sunbeam_migrate.Handlers.Keystone.Project.{project_handler}
use sunbeam_migrate.Handlers.Keystone.Role.{role_handler}
use sunbeam_migrate.Handlers.Keystone.User.{user_handler}
use sunbeam_migrate.Handlers.Nova.Flavor.{flavor_handler}
use sunbeam_migrate.Handlers.Nova.Keypair.{keypair_handler}
use sunbeam_migrate.Handlers.Cinder.VolumeType.{volume_type_handler}
use sunbeam_migrate.Handlers.Found.{
  domain_handler-IsHandler, project_handler-IsHandler, role_handler-IsHandler,
  user_handler-IsHandler, flavor_handler-IsHandler, keypair_handler-IsHandler,
  volume_type_handler-IsHandler,
}
use sunbeam_migrate.Handlers.Barbican.Secret.{secret_handler}
use sunbeam_migrate.Handlers.Barbican.SecretContainer.{secret_container_handler}
use sunbeam_migrate.Handlers.Manila.Mount.{Host}
use sunbeam_migrate.Handlers.Manila.Share.{share_handler}
use sunbeam_migrate.Handlers.Designate.Zone.{zone_handler}
use sunbeam_migrate.Handlers.Created.{
  secret_handler-IsHandler, secret_container_handler-IsHandler, share_handler-IsHandler,
  zone_handler-IsHandler,
}

-- Where every session on the destination gives the resources that it creates or finds an id, the
-- handlers of networks, subnets, routers, ports, floating IPs, security groups and their rules,
-- domains, projects, roles, users, flavors, key pairs, volume types, secrets, secret containers,
-- shares and zones return an id that is not empty and reach the database through the manager alone.
pub handlers-IsHandler :
    {W : Type 0} (conf : Config) (clouds : Clouds W) (host : Host W) (addresses : Addresses)
    → (rule_id : String → Option String) → (b64encode : String → String) → IsDestination clouds
    → IsHandler (network_handler conf clouds)
      × IsHandler (subnet_handler conf clouds)
      × IsHandler (router_handler conf clouds)
      × IsHandler (port_handler conf clouds)
      × IsHandler (floating_ip_handler conf clouds addresses)
      × IsHandler (security_group_handler conf clouds)
      × IsHandler (security_group_rule_handler conf clouds rule_id)
      × IsHandler (domain_handler clouds)
      × IsHandler (project_handler clouds)
      × IsHandler (role_handler clouds)
      × IsHandler (user_handler clouds)
      × IsHandler (flavor_handler clouds)
      × IsHandler (keypair_handler clouds)
      × IsHandler (volume_type_handler clouds)
      × IsHandler (secret_handler b64encode clouds)
      × IsHandler (secret_container_handler clouds)
      × IsHandler (share_handler conf clouds host)
      × IsHandler (zone_handler conf clouds)
handlers-IsHandler conf clouds host addresses rule_id b64encode lawful = (
  network_handler-IsHandler conf clouds lawful.own,
  subnet_handler-IsHandler conf clouds lawful.own,
  router_handler-IsHandler conf clouds lawful.own,
  port_handler-IsHandler conf clouds lawful.own,
  floating_ip_handler-IsHandler conf clouds lawful.own addresses,
  security_group_handler-IsHandler conf clouds lawful.own,
  security_group_rule_handler-IsHandler conf clouds lawful.own rule_id,
  domain_handler-IsHandler clouds lawful.own,
  project_handler-IsHandler clouds lawful.own,
  role_handler-IsHandler clouds lawful.own,
  user_handler-IsHandler clouds lawful.own,
  flavor_handler-IsHandler clouds lawful.own,
  keypair_handler-IsHandler clouds lawful.own,
  volume_type_handler-IsHandler clouds lawful.own,
  secret_handler-IsHandler clouds lawful.own b64encode,
  secret_container_handler-IsHandler clouds lawful.own,
  share_handler-IsHandler conf clouds lawful host,
  zone_handler-IsHandler conf clouds lawful,
)

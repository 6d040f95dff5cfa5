-- ===== src/Handlers/Neutron/Lawful/Ports.antt =====
-- The handlers of ports and floating IPs keep what the manager relies on, on a
-- cloud whose resources have ids.
use sunbeam_migrate.Prelude.{String, ◌≡◌, true, truthy, none, List}
use sunbeam_migrate.Config.{Config}
use sunbeam_migrate.Exec.{lift, pure, ◌>>=◌}
use sunbeam_migrate.Exec.Returns.{Returns, Returns-pure, Returns-bind, Returns-after}
use sunbeam_migrate.Handlers.Interface.{MigratedResource, IsHandler}
use sunbeam_migrate.Handlers.Base.{get_identity_build_kwargs}
use sunbeam_migrate.Handlers.Sdk.{Kwargs, Clouds, IsCloud, update_kwargs}
use sunbeam_migrate.Handlers.Common.{text_attribute, get_or_raise}
use sunbeam_migrate.Handlers.Owner.Lawful.{HasId, created-HasId}
use sunbeam_migrate.Handlers.Neutron.Port.{
  port_kwargs, port_floating_ips, reattach, port_perform, port_handler,
}
use sunbeam_migrate.Handlers.Neutron.FloatingIp.{
  Addresses, floating_ip_kwargs, get_router_from_floating_ip, both_set, connect_found,
  floating_ip_perform, floating_ip_handler,
}

abbrev IsId : String → Type 0
IsId d = truthy d ≡ true

module _ {W : Type 0} (conf : Config) (clouds : Clouds W)
    (lawful : IsCloud clouds.destination) where
  pub created-IsId :
      (kind : String) (kwargs : Kwargs)
      → Returns IsId (clouds.destination.create kind kwargs >>= λ created. pure created.id)
  created-IsId kind kwargs =
      Returns-bind IsId HasId (clouds.destination.create kind kwargs) _
        (created-HasId clouds.destination lawful kind kwargs)
        λ created h. Returns-pure IsId created.id h

  port_perform-IsId :
      (i : String) (deps : List MigratedResource) → Returns IsId (port_perform conf clouds i deps)
  unfolding port_perform
  port_perform-IsId i deps = Returns-after IsId (get_or_raise clouds.source "port" i) _ λ o.
      Returns-after IsId (lift (port_kwargs conf clouds o deps)) _ λ kwargs.
        Returns-after IsId (port_floating_ips conf clouds i) _ λ fips.
          Returns-bind IsId HasId (clouds.destination.create "port" kwargs) _
            (created-HasId clouds.destination lawful "port" kwargs)
            λ created h.
              Returns-after IsId (reattach conf clouds created.id deps fips) _
                λ _. Returns-pure IsId created.id h

  pub port_handler-IsHandler : IsHandler (port_handler conf clouds)
  unfolding port_handler
  port_handler-IsHandler = record {
    returns_id = λ self i deps s {d} e. (port_perform-IsId i deps).holds s.world e;
    database_through_manager = λ R reflexive transitive self keeps i deps s. reflexive s.db;
  }

  floating_ip_perform-IsId :
      (i : String) (deps : List MigratedResource)
      → Returns IsId (floating_ip_perform conf clouds i deps)
  unfolding floating_ip_perform
  floating_ip_perform-IsId i deps =
      Returns-after IsId (get_or_raise clouds.source "floating-ip" i) _ λ o.
        Returns-after IsId (lift (floating_ip_kwargs conf clouds o deps)) _ λ kwargs.
          Returns-after IsId (get_router_from_floating_ip conf clouds o) _ λ found.
            Returns-after IsId (connect_found conf clouds (both_set found) deps) _ λ _.
              Returns-after IsId
                (lift (
                  get_identity_build_kwargs conf "project_id" "user_id" deps
                    (text_attribute o "project_id") none))
                _ λ identity. created-IsId "floating-ip" (update_kwargs identity kwargs)

  pub floating_ip_handler-IsHandler :
      (addresses : Addresses) → IsHandler (floating_ip_handler conf clouds addresses)
  unfolding floating_ip_handler
  floating_ip_handler-IsHandler addresses = record {
    returns_id = λ self i deps s {d} e. (floating_ip_perform-IsId i deps).holds s.world e;
    database_through_manager = λ R reflexive transitive self keeps i deps s. reflexive s.db;
  }

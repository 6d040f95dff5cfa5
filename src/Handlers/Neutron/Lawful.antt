-- ===== src/Handlers/Neutron/Lawful.antt =====
-- The Neutron handlers keep what the manager relies on, on a cloud whose resources have ids.
pub mod Ports
pub mod Groups
use mathlib.Core.Path.{subst}
use sunbeam_migrate.Prelude.{String, ◌≡◌, true, truthy}
use sunbeam_migrate.Exec.{Result, ok, pure, lift, ◌>>=◌}
use sunbeam_migrate.Exec.Chained.{bind-Chained}
use sunbeam_migrate.Config.{Config}
use sunbeam_migrate.Handlers.Interface.{IsHandler}
use sunbeam_migrate.Handlers.Sdk.{Object, Kwargs, Cloud, Clouds, IsCloud}
use sunbeam_migrate.Handlers.Common.{get_or_raise}
use sunbeam_migrate.Handlers.Neutron.Network.{network_kwargs, network_perform, network_handler}
use sunbeam_migrate.Handlers.Neutron.Subnet.{subnet_kwargs, subnet_perform, subnet_handler}
use sunbeam_migrate.Handlers.Neutron.Router.{router_kwargs, router_perform, router_handler}

module _ {W : Type 0} (cloud : Cloud W) (lawful : IsCloud cloud) where
  -- Read the source, compute the arguments, create, and return the new resource's id.
  creates_id :
      (source : Cloud W) (kind i : String) (kwargs : Object → Result Kwargs) (w : W) {d : String}
      → ((get_or_raise source kind i >>= λ o.
            lift (kwargs o) >>= λ k. cloud.create kind k >>= λ created. pure created.id)
          w).0
        ≡ ok d
      → truthy d ≡ true
  creates_id source kind i kwargs w e =
      let c = bind-Chained (get_or_raise source kind i) _ w e in
      let c2 = bind-Chained (lift (kwargs c.value)) _ _ c.rest in
      let c3 = bind-Chained (cloud.create kind c2.value) _ _ c2.rest in
      let same : c3.value.id ≡ _ = cc c3.rest in
      subst (λ x. truthy x ≡ true) same (lawful.created_id kind c2.value _ c3.first)

module _ {W : Type 0} (conf : Config) (clouds : Clouds W)
    (lawful : IsCloud clouds.destination) where
  -- Where the destination gives every new resource an id, the network handler returns an id that
  -- is not empty and reaches the database through the manager alone.
  pub network_handler-IsHandler : IsHandler (network_handler conf clouds)
  unfolding network_handler network_perform
  network_handler-IsHandler = record {
    returns_id = λ self i deps s {d} e.
        creates_id clouds.destination lawful clouds.source "network" i
          (λ o. network_kwargs conf clouds o deps) s.world e;
    database_through_manager = λ R reflexive transitive self keeps i deps s. reflexive s.db;
  }

  -- Where the destination gives every new resource an id, the subnet handler returns an id that is
  -- not empty and reaches the database through the manager alone.
  pub subnet_handler-IsHandler : IsHandler (subnet_handler conf clouds)
  unfolding subnet_handler subnet_perform
  subnet_handler-IsHandler = record {
    returns_id = λ self i deps s {d} e.
        creates_id clouds.destination lawful clouds.source "subnet" i
          (λ o. subnet_kwargs conf clouds o deps) s.world e;
    database_through_manager = λ R reflexive transitive self keeps i deps s. reflexive s.db;
  }

  -- Where the destination gives every new resource an id, the router handler returns an id that is
  -- not empty and reaches the database through the manager alone.
  pub router_handler-IsHandler : IsHandler (router_handler conf clouds)
  unfolding router_handler router_perform
  router_handler-IsHandler = record {
    returns_id = λ self i deps s {d} e.
        creates_id clouds.destination lawful clouds.source "router" i
          (λ o. router_kwargs conf clouds o deps) s.world e;
    database_through_manager = λ R reflexive transitive self keeps i deps s. reflexive s.db;
  }

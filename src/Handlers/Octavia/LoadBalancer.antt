-- ===== src/Handlers/Octavia/LoadBalancer.antt =====
-- handlers/octavia/load_balancer.py: `LoadBalancerHandler`. The parts of the source are gathered
-- first, and then created one after the other, each once the load balancer is active again.
pub mod Complete
pub mod Member
use sunbeam_migrate.Prelude.{
  String, Bool, true, false, not, ◌==◌, ◌||◌, ◌&&◌, truthy, Option, none, some, set?, List, [], ◌∷◌,
  ◌++◌, if◌then◌else◌,
}
use sunbeam_migrate.Config.{Config}
use sunbeam_migrate.Exec.{
  Result, ok, err, not_found, Exec, pure, raise, lift, when, if_found, ◌>>=◌, ◌>>◌,
}
use sunbeam_migrate.Handlers.Interface.{Resource, MigratedResource, Handler, on_world}
use sunbeam_migrate.Handlers.Base.{
  dependency, reported, contains, text_of, report_identity_dependencies,
  get_associated_resource_destination_id,
}
use sunbeam_migrate.Handlers.Sdk.{Object, text, end, entry, Clouds}
use sunbeam_migrate.Handlers.Common.{
  text_attribute, query_filter, get_or_raise, source_resource_ids,
}
use sunbeam_migrate.Handlers.Owner.{or_attribute_error}
use sunbeam_migrate.Handlers.Octavia.Create.{
  wait_for_load_balancer, create_destination_load_balancer, create_destination_listener,
  create_destination_pool, create_destination_member, create_destination_health_monitor,
}

-- What is gathered for the default pool of a listener, under the id that the listener gives.
pub record SourcePool : Type 0 where
  pub key : String
  pub pool : Object
  pub pool_members : List Object
  pub health_monitor : Option Object

-- `source_pools_map.get(key)`, and the entries of the other two maps under a key.
unfoldable pub source_pool : String → List SourcePool → Option SourcePool
source_pool k [] = none
source_pool k (p ∷ ps) = if k == p.key then some p else source_pool k ps

-- `key in source_pools_map`
abbrev pub known : String → List SourcePool → Bool
known k [] = false
known k (p ∷ ps) = k == p.key || known k ps

abbrev pub source_members : String → List SourcePool → List Object
source_members k ps = elim (source_pool k ps) [ none ↦ [] | some p ↦ p.pool_members ]

abbrev pub source_health_monitor : String → List SourcePool → Option Object
source_health_monitor k ps = elim (source_pool k ps) [ none ↦ none | some p ↦ p.health_monitor ]

-- The subnets of pool members.
unfoldable pub member_subnets : List Object → List Resource
member_subnets [] = []
member_subnets (o ∷ os) = reported "subnet" (text_attribute o "subnet_id") ++ member_subnets os

-- The floating IPs that have an id.
unfoldable pub floating_ips : List Object → List Resource
floating_ips [] = []
floating_ips (o ∷ os) =
    if truthy o.id then dependency "floating-ip" o.id ∷ floating_ips os else floating_ips os

-- The query `port_id=…`
abbrev pub port_query : Option String → List (String × String)
port_query none = ("port_id", "None") ∷ []
port_query (some p) = ("port_id", p) ∷ []

module _ {W : Type 0} (conf : Config) (clouds : Clouds W) where
  -- The subnets of the members of a listener's default pool.
  unfoldable pub listener_subnets : Object → Exec W (List Resource)
  unfolding member_subnets
  listener_subnets o =
      let default = text_attribute o "default_pool_id" in
      if not (set? default) then pure [] else (do
        found ← clouds.source.get "pool" (text_of default)
        if_found found
            (λ p. do
              ms ← clouds.source.list_all "member" (("pool", p.id) ∷ [])
              pure (member_subnets ms))
            (pure []))

  unfoldable pub listeners_subnets : List Object → Exec W (List Resource)
  unfolding listener_subnets
  listeners_subnets [] = pure []
  listeners_subnets (o ∷ os) = do
    here ← listener_subnets o
    there ← listeners_subnets os
    pure (here ++ there)

  abbrev pub listeners : String → Exec W (List Object)
  listeners lb = clouds.source.list_all "listener" (("loadbalancer_id", lb) ∷ [])

  -- The dependencies, with the members' subnets and the floating IPs that were found.
  unfoldable pub load_balancer_dependencies : Object → List Resource → List Object → List Resource
  unfolding report_identity_dependencies floating_ips
  load_balancer_dependencies o subnets ips =
      report_identity_dependencies conf [] (text_attribute o "project_id") none
      ++ reported "subnet" (text_attribute o "vip_subnet_id")
      ++ reported "network" (text_attribute o "vip_network_id")
      ++ subnets
      ++ floating_ips ips

  unfoldable pub load_balancer_associated : String → Exec W (List Resource)
  unfolding listeners_subnets load_balancer_dependencies
  load_balancer_associated i = do
    o ← get_or_raise clouds.source "load_balancer" i
    ls ← listeners i
    subnets ← listeners_subnets ls
    let port = text_attribute o "vip_port_id"
    ips ← if set? port then clouds.source.list_all "floating-ip" (port_query port) else pure []
    pure (load_balancer_dependencies o subnets ips)

  -- The health monitor of a pool, if it names one.
  unfoldable pub pool_health_monitor : Object → Exec W (Option Object)
  pool_health_monitor p =
      let monitor = text_attribute p "health_monitor_id" in
      if set? monitor then clouds.source.get "health_monitor" (text_of monitor) else pure none

  -- The second loop: the default pools that are not yet in the map.
  unfoldable pub gather_pools : List Object → List SourcePool → Exec W (List SourcePool)
  unfolding source_pool pool_health_monitor
  gather_pools [] ps = pure ps
  gather_pools (o ∷ os) ps =
      let rest = gather_pools os in
      let default = text_attribute o "default_pool_id" in
      if set? default && not (known (text_of default) ps)
      then (do
        found ← clouds.source.get "pool" (text_of default)
        if_found found
            (λ p. do
              ms ← clouds.source.list_all "member" (("pool", text_of default) ∷ [])
              monitor ← pool_health_monitor p
              rest (
                  ps
                  ++ record {
                    key = text_of default;
                    pool = p;
                    pool_members = ms;
                    health_monitor = monitor;
                  }
                    ∷ []))
            (rest ps))
      else rest ps

  -- The members of a pool.
  unfoldable pub create_members :
      String → String → List MigratedResource → List Object → Exec W (Unit {0})
  unfolding create_destination_member wait_for_load_balancer
  create_members lb pool deps [] = pure tt
  create_members lb pool deps (o ∷ os) = do
    create_destination_member conf clouds o pool deps
    wait_for_load_balancer conf clouds lb
    create_members lb pool deps os

  -- A pool, its health monitor and its members.
  unfoldable pub create_pool :
      String → String → List MigratedResource → List SourcePool → Object → Exec W (Unit {0})
  unfolding create_destination_pool wait_for_load_balancer create_destination_health_monitor
      create_members
  create_pool lb listener deps ps p = do
    pool ← create_destination_pool conf clouds p listener
    wait_for_load_balancer conf clouds lb
    if_found (source_health_monitor p.id ps)
        (λ monitor.
          create_destination_health_monitor conf clouds monitor pool
          >> wait_for_load_balancer conf clouds lb)
        (pure tt)
    create_members lb pool deps (source_members p.id ps)

  -- The loop over the listeners, with the ids of the pools that have been created.
  unfoldable pub create_listeners :
      String
      → List MigratedResource
      → List SourcePool
      → List Object
      → List String
      → Exec W (Unit {0})
  unfolding create_destination_listener wait_for_load_balancer source_pool create_pool
  create_listeners lb deps ps [] done = pure tt
  create_listeners lb deps ps (o ∷ os) done =
      let rest = create_listeners lb deps ps os in
      do
        listener ← create_destination_listener conf clouds o lb
        wait_for_load_balancer conf clouds lb
        let default = text_attribute o "default_pool_id"
        if set? default
            then elim (source_pool (text_of default) ps) [
              | none ↦ rest done
              | some p ↦
                  if contains p.pool.id done
                  then rest done
                  else create_pool lb listener deps ps p.pool >> rest (p.pool.id ∷ done)
            ]
            else rest done

  -- A floating IP whose migration is unknown is skipped.
  unfoldable pub attach_floating_ips :
      String → List MigratedResource → List Object → Exec W (Unit {0})
  unfolding get_associated_resource_destination_id
  attach_floating_ips port deps [] = pure tt
  attach_floating_ips port deps (o ∷ os) =
      let rest = attach_floating_ips port deps os in
      elim (get_associated_resource_destination_id "floating-ip" o.id deps) [
        | ok d ↦ clouds.destination.update "floating-ip" d (entry "port_id" (text port) end) >> rest
        | err not_found ↦ rest
        | err e ↦ raise e
      ]

  unfoldable pub load_balancer_perform : String → List MigratedResource → Exec W String
  unfolding gather_pools create_destination_load_balancer wait_for_load_balancer create_listeners
      attach_floating_ips
  load_balancer_perform i deps = do
    o ← get_or_raise clouds.source "load_balancer" i
    ls ← listeners i
    ps ← gather_pools ls []
    lb ← create_destination_load_balancer conf clouds o deps
    wait_for_load_balancer conf clouds lb
    create_listeners lb deps ps ls []
    found ← clouds.destination.get "load_balancer" lb
    created ← lift (or_attribute_error found)
    let port = text_attribute created "vip_port_id"
    when (set? port) (do
      ips ← clouds.source.list_all "floating-ip" (port_query (text_attribute o "vip_port_id"))
      attach_floating_ips (text_of port) deps ips)
    pure lb

  unfoldable pub load_balancer_handler : Handler W
  unfolding load_balancer_associated load_balancer_perform
  load_balancer_handler = record {
    service_type = "octavia";
    get_associated_resources = load_balancer_associated;
    get_member_resources = λ i. pure [];
    get_source_resource_ids = source_resource_ids clouds.source "load_balancer" "project_id";
    perform_individual_migration = λ self i deps. on_world (load_balancer_perform i deps);
    connect_member_resources_to_parent = λ parent members. pure tt;
    delete_source_resource = clouds.source.delete "load_balancer";
  }

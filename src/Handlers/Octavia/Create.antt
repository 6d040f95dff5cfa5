-- ===== src/Handlers/Octavia/Create.antt =====
-- handlers/octavia/load_balancer.py: the parts of a load balancer that are created on the destination.
use sunbeam_migrate.Prelude.{String, none, set?, List, [], ◌∷◌, if◌then◌else◌}
use sunbeam_migrate.Config.{Config}
use sunbeam_migrate.Exec.{
  not_found, Result, ok, err, and_then, result_map, Exec, pure, lift, ◌>>=◌, ◌>>◌,
}
use sunbeam_migrate.Handlers.Interface.{MigratedResource}
use sunbeam_migrate.Handlers.Base.{
  text_of, get_identity_build_kwargs, get_associated_resource_destination_id,
}
use sunbeam_migrate.Handlers.Sdk.{
  Object, Kwargs, text, end, entry, truth, not_none, attribute, entry_set, copy_fields,
  update_kwargs, Clouds,
}
use sunbeam_migrate.Handlers.Common.{text_attribute, with_field, wait_for}

unfoldable pub listener_fields : List String
listener_fields =
    "name" ∷ "description" ∷ "protocol" ∷ "protocol_port" ∷ "connection_limit" ∷ "is_admin_state_up"
    ∷ "default_tls_container_ref" ∷ "sni_container_refs" ∷ "insert_headers" ∷ "timeout_client_data"
    ∷ "timeout_member_connect" ∷ "timeout_member_data" ∷ "timeout_tcp_inspect" ∷ "allowed_cidrs"
    ∷ []

unfoldable pub pool_fields : List String
pool_fields =
    "name" ∷ "description" ∷ "protocol" ∷ "lb_algorithm" ∷ "is_admin_state_up"
    ∷ "session_persistence" ∷ []

unfoldable pub member_fields : List String
member_fields =
    "name" ∷ "address" ∷ "protocol_port" ∷ "weight" ∷ "is_admin_state_up" ∷ "monitor_address"
    ∷ "monitor_port" ∷ "backup" ∷ []

unfoldable pub health_monitor_fields : List String
health_monitor_fields =
    "name" ∷ "type" ∷ "delay" ∷ "timeout" ∷ "max_retries" ∷ "max_retries_down" ∷ "http_method"
    ∷ "url_path" ∷ "expected_codes" ∷ "is_admin_state_up" ∷ []

-- `if lb.key: kwargs[key] = self._get_associated_resource_destination_id(t, lb.key, …)`
unfoldable pub with_destination_id :
    String → String → Object → List MigratedResource → Kwargs → Result Kwargs
unfolding get_associated_resource_destination_id
with_destination_id t k o deps kwargs =
    let source_id = text_attribute o k in
    if set? source_id
    then result_map (λ d. entry_set k (text d) kwargs)
        (get_associated_resource_destination_id t (text_of source_id) deps)
    else ok kwargs

-- The fields that are copied from the source.
unfoldable pub load_balancer_fields : Config → Object → Kwargs
unfolding copy_fields
load_balancer_fields conf o =
    copy_fields not_none
      (with_field conf.preserve_load_balancer_availability_zone "availability_zone"
        ("name" ∷ "description" ∷ "is_admin_state_up" ∷ "flavor_id" ∷ []))
      o end

-- The address, if there is one, and the arguments for the owner.
unfoldable pub with_address : Object → Kwargs → List (String × String) → Kwargs
unfolding update_kwargs
with_address o kwargs identity =
    let address = attribute o "vip_address" in
    update_kwargs identity
      (if truth address then entry_set "vip_address" address kwargs else kwargs)

-- The arguments of `create_load_balancer`.
unfoldable pub load_balancer_kwargs : Config → Object → List MigratedResource → Result Kwargs
unfolding load_balancer_fields with_destination_id get_identity_build_kwargs with_address
load_balancer_kwargs conf o deps =
    and_then (with_destination_id "subnet" "vip_subnet_id" o deps (load_balancer_fields conf o))
      λ on_subnet.
        and_then (with_destination_id "network" "vip_network_id" o deps on_subnet) λ on_network.
          result_map (with_address o on_network) (
            get_identity_build_kwargs conf "project_id" "user_id" deps
              (text_attribute o "project_id") none)

-- `except exception.NotFound:`
abbrev pub unless_not_found {ℓ} : {A : Type ℓ} → A → Result A → Result A
unless_not_found a (err not_found) = ok a
unless_not_found a r = r

-- The arguments of `create_member`, but for the pool.
unfoldable pub member_kwargs : Object → List MigratedResource → Result Kwargs
unfolding member_fields copy_fields with_destination_id
member_kwargs o deps =
    let fields = copy_fields not_none member_fields o end in
    unless_not_found fields (with_destination_id "subnet" "subnet_id" o deps fields)

module _ {W : Type 0} (conf : Config) (clouds : Clouds W) where
  -- `wait_for_load_balancer(…)`, after each change.
  unfoldable pub wait_for_load_balancer : String → Exec W (Unit {0})
  unfolding wait_for
  wait_for_load_balancer lb =
      wait_for clouds.destination "load_balancer" lb "ACTIVE" "ERROR" 2
        conf.resource_creation_timeout

  -- `_create_destination_load_balancer`
  unfoldable pub create_destination_load_balancer : Object → List MigratedResource → Exec W String
  unfolding load_balancer_kwargs
  create_destination_load_balancer o deps = do
    kwargs ← lift (load_balancer_kwargs conf o deps)
    created ← clouds.destination.create "load_balancer" kwargs
    pure created.id

  -- `_create_destination_listener`
  unfoldable pub create_destination_listener : Object → String → Exec W String
  unfolding listener_fields copy_fields
  create_destination_listener o lb = do
    created ←
        clouds.destination.create "listener"
          (copy_fields not_none listener_fields o (entry "loadbalancer_id" (text lb) end))
    pure created.id

  -- `_create_destination_pool`
  unfoldable pub create_destination_pool : Object → String → Exec W String
  unfolding pool_fields copy_fields
  create_destination_pool o listener = do
    created ←
        clouds.destination.create "pool"
          (copy_fields not_none pool_fields o (entry "listener_id" (text listener) end))
    pure created.id

  -- `_create_destination_member`, whose pool is among the arguments.
  unfoldable pub create_destination_member :
      Object → String → List MigratedResource → Exec W (Unit {0})
  unfolding member_kwargs
  create_destination_member o pool deps = do
    kwargs ← lift (member_kwargs o deps)
    clouds.destination.create "member" (entry "pool" (text pool) kwargs)
    pure tt

  -- `_create_destination_health_monitor`
  unfoldable pub create_destination_health_monitor : Object → String → Exec W (Unit {0})
  unfolding health_monitor_fields copy_fields
  create_destination_health_monitor o pool = do
    clouds.destination.create "health_monitor"
        (copy_fields not_none health_monitor_fields o (entry "pool_id" (text pool) end))
    pure tt

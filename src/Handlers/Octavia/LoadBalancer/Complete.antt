-- ===== src/Handlers/Octavia/LoadBalancer/Complete.antt =====
-- The dependencies that a load balancer reports are all that its creation looks up.
use sunbeam_migrate.Prelude.{String, refl, set?, none, List, [], ◌++◌}
use sunbeam_migrate.Config.{Config}
use sunbeam_migrate.Exec.{IsOk, result_map-IsOk, and_then-IsOk, if-IsOk}
use sunbeam_migrate.Handlers.Interface.{Resource, MigratedResource}
use sunbeam_migrate.Handlers.Base.{
  text_of, reported, report_identity_dependencies, get_identity_build_kwargs,
  get_associated_resource_destination_id,
}
use sunbeam_migrate.Handlers.Base.Covers.{
  Covers, All-append_split, Covers-reported, identity_kwargs-ok,
}
use sunbeam_migrate.Handlers.Sdk.{Object, Kwargs, Clouds}
use sunbeam_migrate.Handlers.Common.{text_attribute}
use sunbeam_migrate.Handlers.Octavia.Create.{
  with_destination_id, load_balancer_fields, with_address, load_balancer_kwargs,
}
use sunbeam_migrate.Handlers.Octavia.LoadBalancer.{floating_ips, load_balancer_dependencies}

with_destination_id-IsOk :
    (t k : String) (o : Object) (deps : List MigratedResource) (kwargs : Kwargs)
    → Covers deps (reported t (text_attribute o k))
    → IsOk (with_destination_id t k o deps kwargs)
unfolding with_destination_id
with_destination_id-IsOk t k o deps kwargs c =
    if-IsOk (set? (text_attribute o k)) _ _
      (λ named.
        result_map-IsOk _
          (get_associated_resource_destination_id t (text_of (text_attribute o k)) deps)
          (Covers-reported deps t (text_attribute o k) c named))
      (λ _. (kwargs, refl))

-- If the dependencies that a load balancer reports are resolved, the arguments of its creation can
-- be built, whatever subnets its members are on and whatever floating IPs its port has.
pub load_balancer_kwargs-IsOk :
    {W : Type 0} (conf : Config) (clouds : Clouds W) (o : Object) (subnets : List Resource)
    → (ips : List Object) (deps : List MigratedResource)
    → Covers deps (load_balancer_dependencies conf clouds o subnets ips)
    → IsOk (load_balancer_kwargs conf o deps)
unfolding load_balancer_dependencies load_balancer_kwargs
load_balancer_kwargs-IsOk conf clouds o subnets ips deps c =
    let project = text_attribute o "project_id" in
    let subnet = reported "subnet" (text_attribute o "vip_subnet_id") in
    let network = reported "network" (text_attribute o "vip_network_id") in
    let identity = report_identity_dependencies conf [] project none in
    let (c4, _) =
      All-append_split _ (identity ++ subnet ++ network ++ subnets) (floating_ips ips) c in
    let (c3, _) = All-append_split _ (identity ++ subnet ++ network) subnets c4 in
    let (c2, cn) = All-append_split _ (identity ++ subnet) network c3 in
    let (ci, cs) = All-append_split _ identity subnet c2 in
    let fields = load_balancer_fields conf o in
    and_then-IsOk (with_destination_id "subnet" "vip_subnet_id" o deps fields) _
      (with_destination_id-IsOk "subnet" "vip_subnet_id" o deps fields cs)
      λ on_subnet.
        and_then-IsOk (with_destination_id "network" "vip_network_id" o deps on_subnet) _
          (with_destination_id-IsOk "network" "vip_network_id" o deps on_subnet cn)
          λ on_network.
            result_map-IsOk (with_address o on_network)
              (get_identity_build_kwargs conf "project_id" "user_id" deps project none)
              (identity_kwargs-ok conf [] deps "project_id" "user_id" project none ci).1

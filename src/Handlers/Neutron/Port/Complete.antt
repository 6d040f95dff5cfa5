-- ===== src/Handlers/Neutron/Port/Complete.antt =====
-- The dependencies that a port reports are all that its creation looks up.
use sunbeam_migrate.Prelude.{◌≡◌, refl, true, set?, none, List, [], ◌++◌}
use sunbeam_migrate.Config.{Config}
use sunbeam_migrate.Exec.{IsOk, and_then, result_map-IsOk, and_then-IsOk, if-IsOk}
use sunbeam_migrate.Handlers.Interface.{MigratedResource}
use sunbeam_migrate.Handlers.Base.{
  text_of, reported, report_identity_dependencies, get_identity_build_kwargs,
  get_associated_resource_destination_id,
}
use sunbeam_migrate.Handlers.Base.Covers.{
  Covers, All-append_split, Covers-reported, identity_kwargs-ok,
}
use sunbeam_migrate.Handlers.Sdk.{
  Value, Items, nil, cons, Object, Clouds, as_text, member, items_of, attribute, not_none,
}
use sunbeam_migrate.Handlers.Common.{text_attribute}
use sunbeam_migrate.Handlers.Neutron.Router.{fixed_ip_subnets}
use sunbeam_migrate.Handlers.Neutron.Port.{
  group_resources, group_ids, destination_groups, destination_fixed_ip, destination_fixed_ips,
  port_dependencies, port_kwargs,
}

destination_groups-IsOk :
    (deps : List MigratedResource) (vs : Items)
    → Covers deps (group_resources vs)
    → IsOk (destination_groups deps vs)
unfolding group_resources destination_groups
destination_groups-IsOk deps nil c = (nil, refl)
destination_groups-IsOk deps (cons v vs) c =
    let rest = destination_groups-IsOk deps vs c.1 in
    and_then-IsOk
      (get_associated_resource_destination_id "security-group" (text_of (as_text v)) deps) _ c.0
      λ d. result_map-IsOk _ (destination_groups deps vs) rest

destination_fixed_ip-IsOk :
    (deps : List MigratedResource) (ip : Value)
    → Covers deps (reported "subnet" (as_text (member "subnet_id" ip)))
    → IsOk (destination_fixed_ip deps ip)
unfolding destination_fixed_ip
destination_fixed_ip-IsOk deps ip c =
    let subnet = as_text (member "subnet_id" ip) in
    if-IsOk (set? subnet) _ _
      (λ named.
        result_map-IsOk _ (get_associated_resource_destination_id "subnet" (text_of subnet) deps)
          (Covers-reported deps "subnet" subnet c named))
      (λ _. (ip, refl))

destination_fixed_ips-IsOk :
    (deps : List MigratedResource) (ips : Items)
    → Covers deps (fixed_ip_subnets ips)
    → IsOk (destination_fixed_ips deps ips)
unfolding fixed_ip_subnets destination_fixed_ips
destination_fixed_ips-IsOk deps nil c = (nil, refl)
destination_fixed_ips-IsOk deps (cons ip ips) c =
    let (here, there) =
      All-append_split _ (reported "subnet" (as_text (member "subnet_id" ip)))
        (fixed_ip_subnets ips) c in
    let rest = destination_fixed_ips-IsOk deps ips there in
    and_then-IsOk (destination_fixed_ip deps ip) _ (destination_fixed_ip-IsOk deps ip here)
      λ v. result_map-IsOk _ (destination_fixed_ips deps ips) rest

module _ {W : Type 0} (conf : Config) (clouds : Clouds W) where
  -- If the dependencies that a port reports are resolved, and the port names its network and has a
  -- list of security groups, the arguments of its creation can be built.
  pub port_kwargs-IsOk :
      (o : Object) (deps : List MigratedResource)
      → set? (text_attribute o "network_id") ≡ true
      → not_none (attribute o "security_group_ids") ≡ true
      → Covers deps (port_dependencies conf clouds o)
      → IsOk (port_kwargs conf clouds o deps)
  unfolding port_dependencies port_kwargs
  port_kwargs-IsOk o deps named listed c =
      let project = text_attribute o "project_id" in
      let network = text_attribute o "network_id" in
      let groups = items_of (attribute o "security_group_ids") in
      let ips = items_of (attribute o "fixed_ips") in
      let identity = report_identity_dependencies conf [] project none in
      let (c3, cg) =
        All-append_split _ (identity ++ reported "network" network ++ fixed_ip_subnets ips)
          (group_resources groups) c in
      let (c2, cf) =
        All-append_split _ (identity ++ reported "network" network) (fixed_ip_subnets ips) c3 in
      let mapped = destination_groups-IsOk deps groups cg in
      let (ci, cn) = All-append_split _ identity (reported "network" network) c2 in
      and_then-IsOk (get_associated_resource_destination_id "network" (text_of network) deps) _
        (Covers-reported deps "network" network cn named)
        λ d.
          and_then-IsOk (and_then (group_ids o) (destination_groups deps)) _
            (mapped.0, rw (listed, mapped.1))
            λ destination.
              and_then-IsOk (destination_fixed_ips deps ips) _
                (destination_fixed_ips-IsOk deps ips cf)
                λ fixed.
                  result_map-IsOk _
                    (get_identity_build_kwargs conf "project_id" "user_id" deps project none)
                    (identity_kwargs-ok conf [] deps "project_id" "user_id" project none ci).1

-- ===== src/Handlers/Neutron/Complete.antt =====
-- The dependencies that a Neutron handler reports are all that its migration looks up.
use sunbeam_migrate.Prelude.{String, ◌≡◌, refl, true, not, none, List, [], ◌∷◌, set?, arith}
use sunbeam_migrate.Config.{Config}
use sunbeam_migrate.Exec.{Result, IsOk, result_map-IsOk, and_then-IsOk, if-IsOk}
use sunbeam_migrate.Handlers.Interface.{Resource, MigratedResource}
use sunbeam_migrate.Handlers.Base.{
  text_of, reported, dependency, report_identity_dependencies, get_identity_build_kwargs,
  get_associated_resource_destination_id,
}
use sunbeam_migrate.Handlers.Base.Covers.{
  Covers, All-append_split, Covers-reported, identity_kwargs-ok,
}
use sunbeam_migrate.Handlers.Sdk.{
  Value, Object, Items, nil, cons, Clouds, as_text, member, items_of, attribute, truth,
}
use sunbeam_migrate.Handlers.Common.{text_attribute}
use sunbeam_migrate.Handlers.Neutron.Network.{network_dependencies, network_kwargs}
use sunbeam_migrate.Handlers.Neutron.Subnet.{subnet_dependencies, subnet_kwargs}
use sunbeam_migrate.Handlers.Neutron.Router.{
  fixed_ip_subnets, gateway_dependencies, new_fixed_ips, new_gateway, prepare_external_gateway_info,
  router_dependencies, router_kwargs,
}

abbrev identity : Config → List MigratedResource → Object → Result (List (String × String))
identity conf deps o =
    get_identity_build_kwargs conf "project_id" "user_id" deps (text_attribute o "project_id") none

identity-IsOk :
    (conf : Config) (rs : List Resource) (deps : List MigratedResource) (o : Object)
    → Covers deps (report_identity_dependencies conf rs (text_attribute o "project_id") none)
    → Covers deps rs × IsOk (identity conf deps o)
identity-IsOk conf rs deps o c =
    identity_kwargs-ok conf rs deps "project_id" "user_id" (text_attribute o "project_id") none c

module _ {W : Type 0} (conf : Config) (clouds : Clouds W) where
  -- If the dependencies that a network reports are resolved, the arguments of its creation can be
  -- built.
  network_kwargs-IsOk :
      (o : Object) (deps : List MigratedResource)
      → Covers deps (network_dependencies conf clouds o)
      → IsOk (network_kwargs conf clouds o deps)
  unfolding network_dependencies network_kwargs
  network_kwargs-IsOk o deps c =
      result_map-IsOk _ (identity conf deps o) (identity-IsOk conf [] deps o c).1

  -- If the dependencies that a subnet reports are resolved, the arguments of its creation can be
  -- built.
  pub subnet_kwargs-IsOk :
      (o : Object) (deps : List MigratedResource)
      → Covers deps (subnet_dependencies conf clouds o)
      → IsOk (subnet_kwargs conf clouds o deps)
  unfolding subnet_dependencies subnet_kwargs
  subnet_kwargs-IsOk o deps c =
      let (ci, cn) =
        All-append_split _
          (report_identity_dependencies conf [] (text_attribute o "project_id") none) _ c in
      and_then-IsOk
        (get_associated_resource_destination_id "network" (text_of (text_attribute o "network_id"))
          deps)
        _ cn.0
        λ network. result_map-IsOk _ (identity conf deps o) (identity-IsOk conf [] deps o ci).1

  new_fixed_ips-IsOk :
      (deps : List MigratedResource) (ips : Items)
      → Covers deps (fixed_ip_subnets ips)
      → IsOk (new_fixed_ips conf clouds deps ips)
  unfolding fixed_ip_subnets new_fixed_ips
  new_fixed_ips-IsOk deps nil c = (nil, refl)
  new_fixed_ips-IsOk deps (cons ip ips) c =
      let subnet = as_text (member "subnet_id" ip) in
      let (ch, ct) = All-append_split _ (reported "subnet" subnet) (fixed_ip_subnets ips) c in
      let rest = new_fixed_ips-IsOk deps ips ct in
      if-IsOk (not (set? subnet)) _ _ (λ _. rest)
        λ named.
          and_then-IsOk (get_associated_resource_destination_id "subnet" (text_of subnet) deps) _
            (Covers-reported deps "subnet" subnet ch (ground arith))
            (λ dest. result_map-IsOk _ (new_fixed_ips conf clouds deps ips) rest)

  prepare_gateway-IsOk :
      (gateway : Value) (deps : List MigratedResource)
      → Covers deps (gateway_dependencies conf clouds gateway)
      → (truth gateway ≡ true → set? (as_text (member "network_id" gateway)) ≡ true)
      → IsOk (prepare_external_gateway_info conf clouds gateway deps)
  unfolding gateway_dependencies prepare_external_gateway_info new_gateway
  prepare_gateway-IsOk gateway deps c names =
      let network = as_text (member "network_id" gateway) in
      let ips = items_of (member "external_fixed_ips" gateway) in
      if-IsOk (not (truth gateway)) _ _ (λ _. (none, refl))
        λ present.
          let named = names (ground arith) in
          let c' : Covers deps (dependency "network" (text_of network) ∷ fixed_ip_subnets ips) =
            rw named at c in
          and_then-IsOk (new_gateway conf clouds deps gateway) _
            (if-IsOk (set? network) _ _
              (λ _.
                result_map-IsOk _
                  (get_associated_resource_destination_id "network" (text_of network) deps) c'.0)
              (λ unset. absurd (cc (named, unset))))
            (λ info.
              result_map-IsOk _ (new_fixed_ips conf clouds deps ips)
                (new_fixed_ips-IsOk deps ips c'.1))

  -- If the dependencies that a router reports are resolved, and its gateway, if it has one, names
  -- a network, the arguments of its creation can be built.
  pub router_kwargs-IsOk :
      (o : Object) (deps : List MigratedResource)
      → (truth (attribute o "external_gateway_info") ≡ true
          → set? (as_text (member "network_id" (attribute o "external_gateway_info"))) ≡ true)
      → Covers deps (router_dependencies conf clouds o)
      → IsOk (router_kwargs conf clouds o deps)
  unfolding router_dependencies router_kwargs
  router_kwargs-IsOk o deps named c =
      let (ci, cg) =
        All-append_split _
          (report_identity_dependencies conf [] (text_attribute o "project_id") none) _ c in
      and_then-IsOk
        (prepare_external_gateway_info conf clouds (attribute o "external_gateway_info") deps) _
        (prepare_gateway-IsOk (attribute o "external_gateway_info") deps cg named)
        λ info. result_map-IsOk _ (identity conf deps o) (identity-IsOk conf [] deps o ci).1

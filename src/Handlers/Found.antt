-- ===== src/Handlers/Found.antt =====
-- Handlers that use the destination's resource of the same name, or else create one: identity,
-- flavors, key pairs and volume types.
use sunbeam_migrate.Prelude.{
  String, ◌≡◌, refl, ap, sym, ◌∙◌, true, truthy, Option, some, List, [], ◌∷◌,
}
use sunbeam_migrate.Exec.{Exec, pure, lift, try_except, if_found, ◌>>=◌}
use sunbeam_migrate.Exec.Returns.{
  Returns, Returns-pure, Returns-bind, Returns-after, Returns-if_found,
}
use sunbeam_migrate.Handlers.Interface.{MigratedResource, Handler, IsHandler, on_world}
use sunbeam_migrate.Handlers.Base.{text_of, get_associated_resource_destination_id}
use sunbeam_migrate.Handlers.Sdk.{Object, Kwargs, Clouds, IsCloud, as_text, entry_get}
use sunbeam_migrate.Handlers.Common.{text_attribute, get_or_raise}
use sunbeam_migrate.Handlers.Owner.Lawful.{HasId, created-HasId, found-HasId}
use sunbeam_migrate.Handlers.Keystone.Domain.{create_domain, domain_perform, domain_handler}
use sunbeam_migrate.Handlers.Keystone.Project.{create_project, project_perform, project_handler}
use sunbeam_migrate.Handlers.Keystone.Role.{
  find_kwargs, build_role_kwargs, create_role, role_perform, role_handler,
}
use sunbeam_migrate.Handlers.Keystone.User.{
  build_user_kwargs, recreate_role_assignments, create_user, user_perform, user_handler,
}
use sunbeam_migrate.Handlers.Nova.Flavor.{
  check_fields, flavor_fields, create_flavor, flavor_perform, flavor_handler,
}
use sunbeam_migrate.Handlers.Nova.Keypair.{create_keypair, keypair_perform, keypair_handler}
use sunbeam_migrate.Handlers.Cinder.VolumeType.{
  build_type_kwargs, create_type, volume_type_perform, volume_type_handler,
}

abbrev pub IsId : String → Type 0
IsId d = truthy d ≡ true

-- A handler that reaches the clouds alone, and returns an id.
pub on_world-IsHandler :
    {W : Type 0} (h : Handler W) (action : String → List MigratedResource → Exec W String)
    → h.perform_individual_migration ≡ (λ self i deps. on_world (action i deps))
    → ((i : String) (deps : List MigratedResource) → Returns IsId (action i deps))
    → IsHandler h
on_world-IsHandler h action same returns = record {
  returns_id = λ self i deps s {d} e.
      (returns i deps).holds s.world (ap (λ p. (p self i deps s).0) (sym same) ∙ e);
  database_through_manager = λ R reflexive transitive self keeps i deps s. rw same (reflexive s.db);
}

module _ {W : Type 0} (clouds : Clouds W) (lawful : IsCloud clouds.destination) where
  -- A new resource, some work on it, and its id.
  created-IsId :
      (kind : String) (kwargs : Kwargs) (work : Object → Exec W (Unit {0}))
      → Returns IsId (clouds.destination.create kind kwargs >>= λ o. work o >>= λ _. pure o.id)
  created-IsId kind kwargs work =
      Returns-bind IsId HasId (clouds.destination.create kind kwargs) _
        (created-HasId clouds.destination lawful kind kwargs)
        λ o h. Returns-after IsId (work o) _ λ _. Returns-pure IsId o.id h

  pub new-IsId :
      (kind : String) (kwargs : Kwargs)
      → Returns IsId (clouds.destination.create kind kwargs >>= λ o. pure o.id)
  new-IsId kind kwargs =
      Returns-bind IsId HasId (clouds.destination.create kind kwargs) _
        (created-HasId clouds.destination lawful kind kwargs) λ o h. Returns-pure IsId o.id h

  -- The resource of that name, or else what is created.
  found-IsId :
      (kind name : String) (filters : List (String × String)) (creation : Exec W String)
      → Returns IsId creation
      → Returns IsId (
          clouds.destination.find kind name filters >>= λ existing.
          if_found existing (λ found. pure found.id) creation)
  found-IsId kind name filters creation created =
      let P : Option Object → Type 0 = λ found. (o : Object) → found ≡ some o → HasId o in
      Returns-bind IsId P (clouds.destination.find kind name filters) _
        (found-HasId clouds.destination lawful kind name filters)
        λ existing has.
          Returns-if_found IsId existing _ creation
            (λ found e. Returns-pure IsId found.id (has found e)) created

  keypair_perform-IsId :
      (i : String) (deps : List MigratedResource) → Returns IsId (keypair_perform clouds i deps)
  unfolding keypair_perform create_keypair
  keypair_perform-IsId i deps =
      Returns-after IsId (get_or_raise clouds.source "keypair" i) _
        λ o. found-IsId "keypair" (text_of (text_attribute o "name")) [] _ (new-IsId "keypair" _)

  pub keypair_handler-IsHandler : IsHandler (keypair_handler clouds)
  unfolding keypair_handler
  keypair_handler-IsHandler =
      on_world-IsHandler (keypair_handler clouds) (keypair_perform clouds) refl keypair_perform-IsId

  domain_perform-IsId :
      (i : String) (deps : List MigratedResource) → Returns IsId (domain_perform clouds i deps)
  unfolding domain_perform create_domain
  domain_perform-IsId i deps =
      Returns-after IsId (get_or_raise clouds.source "domain" i) _
        λ o. found-IsId "domain" (text_of (text_attribute o "name")) [] _ (new-IsId "domain" _)

  pub domain_handler-IsHandler : IsHandler (domain_handler clouds)
  unfolding domain_handler
  domain_handler-IsHandler =
      on_world-IsHandler (domain_handler clouds) (domain_perform clouds) refl domain_perform-IsId

  project_perform-IsId :
      (i : String) (deps : List MigratedResource) → Returns IsId (project_perform clouds i deps)
  unfolding project_perform create_project
  project_perform-IsId i deps = Returns-after IsId (get_or_raise clouds.source "project" i) _ λ o.
      Returns-after IsId
        (lift (
          get_associated_resource_destination_id "domain" (text_of (text_attribute o "domain_id"))
            deps))
        _
        λ domain.
          found-IsId "project" (text_of (text_attribute o "name")) (("domain_id", domain) ∷ []) _
            (new-IsId "project" _)

  pub project_handler-IsHandler : IsHandler (project_handler clouds)
  unfolding project_handler
  project_handler-IsHandler =
      on_world-IsHandler (project_handler clouds) (project_perform clouds) refl project_perform-IsId

  role_perform-IsId :
      (i : String) (deps : List MigratedResource) → Returns IsId (role_perform clouds i deps)
  unfolding role_perform create_role
  role_perform-IsId i deps = Returns-after IsId (get_or_raise clouds.source "role" i) _ λ o.
      Returns-after IsId (lift (build_role_kwargs o deps)) _ λ kwargs.
        found-IsId "role" (text_of (text_attribute o "name"))
          (find_kwargs (as_text (entry_get "domain_id" kwargs))) _ (new-IsId "role" kwargs)

  pub role_handler-IsHandler : IsHandler (role_handler clouds)
  unfolding role_handler
  role_handler-IsHandler =
      on_world-IsHandler (role_handler clouds) (role_perform clouds) refl role_perform-IsId

  user_perform-IsId :
      (i : String) (deps : List MigratedResource) → Returns IsId (user_perform clouds i deps)
  unfolding user_perform create_user
  user_perform-IsId i deps = Returns-after IsId (get_or_raise clouds.source "user" i) _ λ o.
      Returns-after IsId
        (lift (
          get_associated_resource_destination_id "domain" (text_of (text_attribute o "domain_id"))
            deps))
        _
        λ domain.
          found-IsId "user" (text_of (text_attribute o "name")) (("domain_id", domain) ∷ []) _ (
            Returns-after IsId (lift (build_user_kwargs o domain deps)) _ λ kwargs.
              created-IsId "user" kwargs λ created.
                try_except (recreate_role_assignments clouds o created.id deps) (λ e. pure tt))

  pub user_handler-IsHandler : IsHandler (user_handler clouds)
  unfolding user_handler
  user_handler-IsHandler =
      on_world-IsHandler (user_handler clouds) (user_perform clouds) refl user_perform-IsId

  flavor_perform-IsId :
      (i : String) (deps : List MigratedResource) → Returns IsId (flavor_perform clouds i deps)
  unfolding flavor_perform create_flavor
  flavor_perform-IsId i deps = Returns-after IsId (get_or_raise clouds.source "flavor" i) _ λ o.
      found-IsId "flavor" (text_of (text_attribute o "name")) [] _ (
        Returns-after IsId (lift (check_fields ("ram" ∷ "vcpus" ∷ "disk" ∷ []) o)) _
          λ _. created-IsId "flavor" (flavor_fields o) _)

  pub flavor_handler-IsHandler : IsHandler (flavor_handler clouds)
  unfolding flavor_handler
  flavor_handler-IsHandler =
      on_world-IsHandler (flavor_handler clouds) (flavor_perform clouds) refl flavor_perform-IsId

  volume_type_perform-IsId :
      (i : String) (deps : List MigratedResource) → Returns IsId (volume_type_perform clouds i deps)
  unfolding volume_type_perform create_type
  volume_type_perform-IsId i deps =
      Returns-after IsId (get_or_raise clouds.source "volume-type" i) _ λ o.
        found-IsId "volume-type" (text_of (text_attribute o "name")) [] _
          (created-IsId "volume-type" (build_type_kwargs o) _)

  pub volume_type_handler-IsHandler : IsHandler (volume_type_handler clouds)
  unfolding volume_type_handler
  volume_type_handler-IsHandler =
      on_world-IsHandler (volume_type_handler clouds) (volume_type_perform clouds) refl
        volume_type_perform-IsId

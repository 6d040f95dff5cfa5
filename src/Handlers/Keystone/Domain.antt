-- ===== src/Handlers/Keystone/Domain.antt =====
-- handlers/keystone/domain.py: `DomainHandler`.
use sunbeam_migrate.Prelude.{
  String, false, Option, none, some, not, set?, List, [], ◌∷◌, ◌++◌, if◌then◌else◌,
}
use sunbeam_migrate.Exec.{Exec, pure, try_except, if_found, ◌>>=◌, ◌>>◌}
use sunbeam_migrate.Handlers.Interface.{Resource, MigratedResource, Handler, on_world}
use sunbeam_migrate.Handlers.Base.{dependency, text_of}
use sunbeam_migrate.Handlers.Sdk.{
  Object, Kwargs, bool, end, entry, truth, not_none_or_empty, attribute, copy_fields, Clouds,
}
use sunbeam_migrate.Handlers.Common.{text_attribute, members_of, get_or_raise, queried_ids}
use sunbeam_migrate.Handlers.Keystone.Project.{ignore_not_found}

-- The users that have no default project.
unfoldable pub domain_users : List Object → List Resource
domain_users [] = []
domain_users (u ∷ us) =
    let rest = domain_users us in
    if not (set? (text_attribute u "default_project_id"))
    then dependency "user" u.id ∷ rest
    else rest

-- `_build_domain_kwargs`
unfoldable pub build_domain_kwargs : Object → Kwargs
unfolding copy_fields
build_domain_kwargs o =
    copy_fields not_none_or_empty ("name" ∷ "description" ∷ "enabled" ∷ []) o end

module _ {W : Type 0} (clouds : Clouds W) where
  unfoldable pub domain_members : String → Exec W (List Resource)
  unfolding domain_users
  domain_members i = do
    o ← get_or_raise clouds.source "domain" i
    projects ← clouds.source.list_all "project" (("domain_id", o.id) ∷ [])
    users ← clouds.source.list_all "user" (("domain_id", o.id) ∷ [])
    pure (members_of "project" projects ++ domain_users users)

  unfoldable pub create_domain : Object → Exec W String
  unfolding build_domain_kwargs
  create_domain o = do
    created ← clouds.destination.create "domain" (build_domain_kwargs o)
    pure created.id

  unfoldable pub domain_perform : String → List MigratedResource → Exec W String
  unfolding create_domain
  domain_perform i deps = do
    o ← get_or_raise clouds.source "domain" i
    existing ← clouds.destination.find "domain" (text_of (text_attribute o "name")) []
    if_found existing (λ found. pure found.id) (create_domain o)

  -- Domains must be disabled before deletion.
  unfoldable pub disable_enabled_domain : Option Object → Exec W (Unit {0})
  disable_enabled_domain none = pure tt
  disable_enabled_domain (some o) =
      if truth (attribute o "is_enabled")
      then clouds.source.update "domain" o.id (entry "enabled" (bool false) end)
      else pure tt

  unfoldable pub disable_domain : String → Exec W (Unit {0})
  unfolding disable_enabled_domain
  disable_domain i = do found ← clouds.source.get "domain" i; disable_enabled_domain found

  -- `_delete_resource` on the source cloud
  unfoldable pub delete_domain : String → Exec W (Unit {0})
  unfolding disable_domain
  delete_domain i =
      try_except (disable_domain i) (ignore_not_found clouds) >> clouds.source.delete "domain" i

  unfoldable pub domain_handler : Handler W
  unfolding domain_members domain_perform delete_domain
  domain_handler = record {
    service_type = "keystone";
    get_associated_resources = λ i. pure [];
    get_member_resources = domain_members;
    get_source_resource_ids = queried_ids clouds.source "domain" [] (λ filters. []);
    perform_individual_migration = λ self i deps. on_world (domain_perform i deps);
    connect_member_resources_to_parent = λ parent members. pure tt;
    delete_source_resource = delete_domain;
  }

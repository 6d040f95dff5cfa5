-- ===== src/Handlers/Designate/Zone.antt =====
-- handlers/designate/zone.py: `ZoneHandler`. A zone is copied with its recordsets.
pub mod Recordsets
use sunbeam_migrate.Prelude.{
  String, Bool, false, Option, none, some, List, [], ◌∷◌, ◌==◌, ◌||◌, if◌then◌else◌,
}
use sunbeam_migrate.Config.{Config}
use sunbeam_migrate.Exec.{Exec, pure, lift, try_except, ◌>>=◌, ◌>>◌}
use sunbeam_migrate.Handlers.Interface.{Resource, MigratedResource, Handler, on_world}
use sunbeam_migrate.Handlers.Base.{text_of, report_identity_dependencies, get_identity_build_kwargs}
use sunbeam_migrate.Handlers.Sdk.{
  Object, Kwargs, text, end, entry, truth, copy_fields, Cloud, Clouds,
}
use sunbeam_migrate.Handlers.Common.{text_attribute, or_not_found, queried_ids, tenant_query}
use sunbeam_migrate.Handlers.Owner.{owner_scoped_session, owner_sessions, owner_destination_session}

unfoldable pub zone_fields : List String
zone_fields = "description" ∷ "email" ∷ "name" ∷ "ttl" ∷ "type" ∷ "is_shared" ∷ []

unfoldable pub recordset_fields : List String
recordset_fields = "description" ∷ "name" ∷ "records" ∷ "ttl" ∷ "type" ∷ []

-- The first zone with this id.
unfoldable pub zone_with_id : String → List Object → Option Object
zone_with_id i [] = none
zone_with_id i (z ∷ zs) = if z.id == i then some z else zone_with_id i zs

-- Designate creates these records itself.
unfoldable pub auto_created : Object → Bool
auto_created o = elim (text_attribute o "type") [ none ↦ false | some t ↦ t == "NS" || t == "SOA" ]

-- `create_recordset(zone=dest_zone_id, **recordset_attrs)`
unfoldable pub recordset_kwargs : String → Object → Kwargs
unfolding recordset_fields copy_fields
recordset_kwargs zone o = entry "zone" (text zone) (copy_fields truth recordset_fields o end)

module _ {W : Type 0} (conf : Config) (clouds : Clouds W) where
  -- `_get_zone_all_projects`
  unfoldable pub get_zone_all_projects : String → Exec W (Option Object)
  unfolding zone_with_id
  get_zone_all_projects i = do
    zones ← clouds.source.list_all "zone" (("all_projects", "True") ∷ [])
    pure (zone_with_id i zones)

  unfoldable pub zone_associated : String → Exec W (List Resource)
  unfolding get_zone_all_projects report_identity_dependencies
  zone_associated i = do
    found ← get_zone_all_projects i
    o ← lift (or_not_found found)
    pure (report_identity_dependencies conf [] (text_attribute o "project_id") none)

  abbrev pub zone_identity : Object → List MigratedResource → Exec W (List (String × String))
  zone_identity o deps = lift (
      get_identity_build_kwargs conf "project_id" "user_id" deps (text_attribute o "project_id")
        none)

  -- `_create_destination_zone`, which asks for the owner's session once more.
  unfoldable pub create_destination_zone : Object → List MigratedResource → Exec W Object
  unfolding zone_fields copy_fields get_identity_build_kwargs owner_destination_session
  create_destination_zone o deps = do
    identity ← zone_identity o deps
    owner ← owner_destination_session conf clouds identity
    owner.create "zone" (copy_fields truth zone_fields o end)

  -- The loop of `_copy_recordsets`: a record that cannot be created is skipped.
  unfoldable pub copy_each : Cloud W → String → List Object → Exec W (Unit {0})
  unfolding auto_created recordset_kwargs
  copy_each owner zone [] = pure tt
  copy_each owner zone (o ∷ os) =
      let rest = copy_each owner zone os in
      if auto_created o
      then rest
      else try_except (owner.create "recordset" (recordset_kwargs zone o) >> pure tt) (λ e. pure tt)
        >> rest

  -- `_copy_recordsets`
  unfoldable pub copy_recordsets :
      String → String → List MigratedResource → Object → Exec W (Unit {0})
  unfolding get_identity_build_kwargs owner_sessions copy_each
  copy_recordsets source_zone zone deps o = do
    identity ← zone_identity o deps
    owner ← owner_sessions conf clouds (text_of (text_attribute o "project_id")) identity
    recordsets ← owner.owner_source.list_all "recordset" (("zone", source_zone) ∷ [])
    copy_each owner.owner_destination zone recordsets

  unfoldable pub zone_perform : String → List MigratedResource → Exec W String
  unfolding get_zone_all_projects get_identity_build_kwargs owner_destination_session
      create_destination_zone copy_recordsets
  zone_perform i deps = do
    found ← get_zone_all_projects i
    o ← lift (or_not_found found)
    identity ← zone_identity o deps
    owner ← owner_destination_session conf clouds identity
    existing ← owner.find "zone" (text_of (text_attribute o "name")) []
    elim existing [
      | some z ↦ pure z.id
      | none ↦ do z ← create_destination_zone o deps; copy_recordsets i z.id deps o; pure z.id
    ]

  -- `delete_source_resource`
  unfoldable pub delete_zone : String → Exec W (Unit {0})
  unfolding get_zone_all_projects owner_scoped_session
  delete_zone i =
      if conf.multitenant_mode
      then (do
        found ← get_zone_all_projects i
        elim found [
          | none ↦ pure tt
          | some o ↦ do
            owner ←
                owner_scoped_session clouds.source clouds.source_as conf.member_role_name
                  (text_of (text_attribute o "project_id"))
            owner.delete "zone" i
        ])
      else clouds.source.delete "zone" i

  unfoldable pub zone_handler : Handler W
  unfolding zone_associated zone_perform delete_zone
  zone_handler = record {
    service_type = "designate";
    get_associated_resources = zone_associated;
    get_member_resources = λ i. pure [];
    get_source_resource_ids =
        queried_ids clouds.source "zone" ("project_id" ∷ [])
          (tenant_query "project_id" "project_id" (("all_projects", "True") ∷ []));
    perform_individual_migration = λ self i deps. on_world (zone_perform i deps);
    connect_member_resources_to_parent = λ parent members. pure tt;
    delete_source_resource = delete_zone;
  }

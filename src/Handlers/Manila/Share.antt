-- ===== src/Handlers/Manila/Share.antt =====
-- handlers/manila/share.py: `ShareHandler`.
use Prim.Native.String.{◌++◌ as str_append}
use sunbeam_migrate.Prelude.{
  String, Bool, false, not, ◌&&◌, ◌||◌, ◌==◌, opt_eq, none, some, set?, List, [], ◌∷◌, ◌++◌,
  if◌then◌else◌,
}
use sunbeam_migrate.Config.{Config}
use sunbeam_migrate.Exec.{
  Exec, Result, ok, invalid_input, result_map, pure, raise, lift, when, try_except, ◌>>=◌, ◌>>◌,
}
use sunbeam_migrate.Handlers.Interface.{Resource, MigratedResource, Handler, on_world}
use sunbeam_migrate.Handlers.Base.{
  reported, text_of, report_identity_dependencies, get_identity_build_kwargs,
  get_associated_resource_destination_id,
}
use sunbeam_migrate.Handlers.Sdk.{
  Entries, Object, Kwargs, text, list, nil, cons, num, end, entry, not_none_or_empty, attribute,
  entry_set, copy_fields, Cloud, Clouds,
}
use sunbeam_migrate.Handlers.Common.{
  text_attribute, get_or_raise, queried_ids, tenant_query, wait_for,
}
use sunbeam_migrate.Handlers.Owner.{owner_destination_session}
use sunbeam_migrate.Handlers.Manila.Mount.{Host, with_mounted_share}

unfoldable pub has_entry : String → Entries → Bool
has_entry k end = false
has_entry k (entry j v es) = k == j || has_entry k es

-- `hasattr(rule, "state") and rule.state != "active"`
abbrev pub inactive : Object → Bool
inactive o =
    has_entry "state" o.attributes && not (opt_eq (text_attribute o "state") (some "active"))

module _ {W : Type 0} (conf : Config) (clouds : Clouds W) where
  unfoldable pub share_dependencies : Object → List Resource
  unfolding report_identity_dependencies
  share_dependencies o =
      report_identity_dependencies conf [] (text_attribute o "project_id") none
      ++ reported "share-type" (text_attribute o "share_type")

  unfoldable pub share_associated : String → Exec W (List Resource)
  unfolding share_dependencies
  share_associated i = do o ← get_or_raise clouds.source "share" i; pure (share_dependencies o)

  -- `_build_share_kwargs`
  unfoldable pub build_share_kwargs : Object → List MigratedResource → Result Kwargs
  unfolding copy_fields get_associated_resource_destination_id
  build_share_kwargs o deps =
      let kwargs =
        copy_fields not_none_or_empty
          ("name" ∷ "size" ∷ "share_protocol" ∷ "description" ∷ "is_public" ∷ []) o end in
      let share_type = text_attribute o "share_type" in
      if set? share_type && conf.preserve_share_type
      then result_map (λ d. entry_set "share_type" (text d) kwargs)
          (get_associated_resource_destination_id "share-type" (text_of share_type) deps)
      else ok kwargs

  -- One access rule; an error is logged and the rule passed over.
  unfoldable pub migrate_rule : Cloud W → String → Object → Exec W (Unit {0})
  migrate_rule owner share rule =
      try_except
        (owner.create "access-rule" (
            entry "share" (text share) (
              entry "access_to" (attribute rule "access_to") (
                entry "access_type" (attribute rule "access_type")
                  (entry "access_level" (attribute rule "access_level") end))))
          >>= λ created.
              owner.act "wait_for_state" created.id (
                entry "status" (text "active") (
                  entry "failures" (list (cons (text "error") nil)) (
                    entry "interval" (num 5)
                      (entry "wait" (num conf.resource_creation_timeout) end))))
              >> pure tt)
        (λ e. pure tt)

  unfoldable pub migrate_rules : Cloud W → String → List Object → Exec W (Unit {0})
  unfolding migrate_rule has_entry
  migrate_rules owner share [] = pure tt
  migrate_rules owner share (rule ∷ rules) =
      let rest = migrate_rules owner share rules in
      if inactive rule then rest else migrate_rule owner share rule >> rest

  -- `_migrate_share_access_rules`: the SDK lists the rules lazily, so the request is made by the
  -- loop, after the `try` block with its `except NotFoundException`.
  unfoldable pub migrate_share_access_rules : Cloud W → Object → String → Exec W (Unit {0})
  unfolding migrate_rules
  migrate_share_access_rules owner o share = do
    rules ← clouds.source.list_all "access-rule" (("share", o.id) ∷ [])
    migrate_rules owner share rules

  module _ (host : Host W) where
    -- `_migrate_share_data`
    unfoldable pub migrate_share_data : Object → Object → Exec W (Unit {0})
    unfolding with_mounted_share
    migrate_share_data o created = with_mounted_share conf host clouds.source o "rw" λ from.
        with_mounted_share conf host clouds.destination created "rw" λ to. host.check_call (
          "sudo"
          ∷ "cp"
          ∷ "-r"
          ∷ "--preserve=timestamps"
          ∷ "--preserve=xattr"
          ∷ "--preserve=links"
          ∷ "--preserve=ownership"
          ∷ str_append from "/."
          ∷ str_append to "/"
          ∷ [])

    unfoldable pub create_share : Object → List MigratedResource → Exec W String
    unfolding get_identity_build_kwargs owner_destination_session build_share_kwargs wait_for
        migrate_share_access_rules migrate_share_data
    create_share o deps = do
      identity ← lift (
          get_identity_build_kwargs conf "project_id" "user_id" deps (text_attribute o "project_id")
            none)
      owner ← owner_destination_session conf clouds identity
      kwargs ← lift (build_share_kwargs o deps)
      created ← owner.create "share" kwargs
      wait_for clouds.destination "share" created.id "available" "error" 5
          conf.resource_creation_timeout
      when conf.preserve_share_access_rules (migrate_share_access_rules owner o created.id)
      migrate_share_data o created
      pure created.id

    unfoldable pub share_perform : String → List MigratedResource → Exec W String
    unfolding create_share
    share_perform i deps = do
      o ← get_or_raise clouds.source "share" i
      if not (opt_eq (text_attribute o "share_protocol") (some "NFS"))
          then raise invalid_input
          else create_share o deps

    unfoldable pub share_handler : Handler W
    unfolding share_associated share_perform
    share_handler = record {
      service_type = "manila";
      get_associated_resources = share_associated;
      get_member_resources = λ i. pure [];
      get_source_resource_ids = queried_ids clouds.source "share" ("project_id" ∷ []) (
          tenant_query "project_id" "project_id"
            (("all_tenants", "True") ∷ ("is_public", "False") ∷ []));
      perform_individual_migration = λ self i deps. on_world (share_perform i deps);
      connect_member_resources_to_parent = λ parent members. pure tt;
      delete_source_resource = clouds.source.delete "share";
    }

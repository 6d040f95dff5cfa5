-- ===== src/Handlers/Barbican/SecretContainer.antt =====
-- handlers/barbican/secret_container.py: `SecretContainerHandler`.
use sunbeam_migrate.Prelude.{String, true, List, [], ◌∷◌, if◌then◌else◌}
use sunbeam_migrate.Exec.{
  Exec, Result, ok, err, type_error, and_then, result_map, pure, lift, ◌>>=◌,
}
use sunbeam_migrate.Handlers.Interface.{Resource, MigratedResource, Handler, on_world}
use sunbeam_migrate.Handlers.Base.{get_associated_resource_destination_id}
use sunbeam_migrate.Handlers.Sdk.{
  Items, nil, cons, dict, list, text, end, entry, Object, Kwargs, truth, attribute, items_of,
  not_none, entry_set, copy_fields, Clouds,
}
use sunbeam_migrate.Handlers.Common.{get_or_raise, queried_ids, tenant_query}
use sunbeam_migrate.Handlers.Owner.{member_text}
use sunbeam_migrate.Handlers.Barbican.Url.{parse_barbican_url, value_at}
use sunbeam_migrate.Handlers.Barbican.Secret.{or_no_secret}

-- `for secret_ref_dict in container.secret_refs`: `None` cannot be iterated over.
unfoldable pub secret_refs : Object → Result Items
secret_refs o =
    if not_none (attribute o "secret_refs")
    then ok (items_of (attribute o "secret_refs"))
    else err type_error

-- The secrets of a container, which are to be cleaned up.
unfoldable pub container_secrets : Items → Result (List Resource)
container_secrets nil = ok []
container_secrets (cons v vs) =
    let rest = container_secrets vs in
    and_then (member_text "secret_ref" v) (λ ref.
      result_map
        (λ rs. record { resource_type = "secret"; source_id = ref; should_cleanup = true } ∷ rs)
        rest)

-- `secret_refs` on the destination.
unfoldable pub destination_refs : List MigratedResource → Items → Result Items
unfolding get_associated_resource_destination_id
destination_refs deps nil = ok nil
destination_refs deps (cons v vs) =
    let rest = destination_refs deps vs in
    and_then (member_text "secret_ref" v) λ ref.
      and_then (get_associated_resource_destination_id "secret" ref deps) λ d.
        and_then (value_at "name" v) λ name.
          result_map (cons (dict (entry "name" name (entry "secret_ref" (text d) end)))) rest

-- The arguments of `create_container`.
unfoldable pub container_kwargs : Object → List MigratedResource → Result Kwargs
unfolding copy_fields secret_refs destination_refs entry_set
container_kwargs o deps =
    result_map
      (λ refs. entry_set "secret_refs" (list refs) (copy_fields truth ("name" ∷ "type" ∷ []) o end))
      (and_then (secret_refs o) (destination_refs deps))

module _ {W : Type 0} (clouds : Clouds W) where
  unfoldable pub container_associated : String → Exec W (List Resource)
  unfolding parse_barbican_url secret_refs container_secrets
  container_associated i = do
    found ← clouds.source.get "secret-container" (parse_barbican_url i)
    o ← lift (or_no_secret found)
    lift (and_then (secret_refs o) container_secrets)

  unfoldable pub container_perform : String → List MigratedResource → Exec W String
  unfolding parse_barbican_url container_kwargs
  container_perform i deps = do
    o ← get_or_raise clouds.source "secret-container" (parse_barbican_url i)
    kwargs ← lift (container_kwargs o deps)
    created ← clouds.destination.create "secret-container" kwargs
    pure created.id

  unfoldable pub secret_container_handler : Handler W
  unfolding container_associated container_perform parse_barbican_url
  secret_container_handler = record {
    service_type = "barbican";
    get_associated_resources = container_associated;
    get_member_resources = λ i. pure [];
    get_source_resource_ids =
        queried_ids clouds.source "secret-container" [] (tenant_query "owner_id" "owner" []);
    perform_individual_migration = λ self i deps. on_world (container_perform i deps);
    connect_member_resources_to_parent = λ parent members. pure tt;
    delete_source_resource = λ i. clouds.source.delete "secret-container" (parse_barbican_url i);
  }

-- ===== src/Handlers/Barbican/Secret.antt =====
-- handlers/barbican/secret.py: `SecretHandler`. Base64 is a parameter.
use sunbeam_migrate.Prelude.{
  String, Bool, true, false, ◌||◌, ◌==◌, truthy, Option, none, some, List, [], ◌∷◌, if◌then◌else◌,
}
use sunbeam_migrate.Exec.{Exec, Result, ok, err, not_found, pure, lift, ◌>>=◌}
use sunbeam_migrate.Handlers.Interface.{MigratedResource, Handler, on_world}
use sunbeam_migrate.Handlers.Sdk.{
  Value, bytes, text, Object, Kwargs, end, truth, attribute, entry_set, copy_fields, as_text,
  Clouds,
}
use sunbeam_migrate.Handlers.Common.{queried_ids}
use sunbeam_migrate.Handlers.Barbican.Url.{parse_barbican_url}

unfoldable pub secret_fields : List String
secret_fields =
    "algorithm" ∷ "bit_length" ∷ "content_types" ∷ "expires_at" ∷ "mode" ∷ "name" ∷ "secret_type"
    ∷ "payload" ∷ "payload_content_type" ∷ "payload_content_encoding" ∷ []

-- `isinstance(value, bytes)`
abbrev pub is_bytes : Value → Bool
is_bytes (bytes s) = true
is_bytes _ = false

-- `value == "base64"`
abbrev pub is_base64 : Value → Bool
is_base64 v = elim (as_text v) [ none ↦ false | some s ↦ s == "base64" ]

-- `if not (secret and secret.id): raise exception.NotFound(…)`
abbrev pub or_no_secret : Option Object → Result Object
or_no_secret none = err not_found
or_no_secret (some o) = if truthy o.id then ok o else err not_found

-- The content type that is deduced.
unfoldable pub content_type : Object → String
content_type o =
    if is_bytes (attribute o "payload") || is_base64 (attribute o "payload_content_encoding")
    then "application/octet-stream"
    else "text/plain"

module _ (b64encode : String → String) where
  -- `if isinstance(payload, bytes) and not payload_content_encoding: …`
  unfoldable pub with_encoding : Object → Value → Kwargs → Kwargs
  unfolding entry_set
  with_encoding o (bytes s) kwargs =
      if truth (attribute o "payload_content_encoding")
      then kwargs
      else entry_set "payload" (text (b64encode s))
          (entry_set "payload_content_encoding" (text "base64") kwargs)
  with_encoding o _ kwargs = kwargs

  -- The arguments of `create_secret`.
  unfoldable pub secret_kwargs : Object → Kwargs
  unfolding secret_fields copy_fields with_encoding content_type
  secret_kwargs o =
      let encoded =
        with_encoding o (attribute o "payload") (copy_fields truth secret_fields o end) in
      if truth (attribute o "payload_content_type")
      then encoded
      else entry_set "payload_content_type" (text (content_type o)) encoded

  module _ {W : Type 0} (clouds : Clouds W) where
    unfoldable pub secret_perform : String → List MigratedResource → Exec W String
    unfolding parse_barbican_url secret_kwargs
    secret_perform i deps = do
      found ← clouds.source.get "secret" (parse_barbican_url i)
      o ← lift (or_no_secret found)
      created ← clouds.destination.create "secret" (secret_kwargs o)
      pure created.id

    unfoldable pub secret_handler : Handler W
    unfolding secret_perform parse_barbican_url
    secret_handler = record {
      service_type = "barbican";
      get_associated_resources = λ i. pure [];
      get_member_resources = λ i. pure [];
      get_source_resource_ids = queried_ids clouds.source "secret" [] (λ filters. []);
      perform_individual_migration = λ self i deps. on_world (secret_perform i deps);
      connect_member_resources_to_parent = λ parent members. pure tt;
      delete_source_resource = λ i. clouds.source.delete "secret" (parse_barbican_url i);
    }

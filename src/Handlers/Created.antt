-- ===== src/Handlers/Created.antt =====
-- Handlers of secrets, secret containers, shares and zones keep what the manager relies on.
use sunbeam_migrate.Prelude.{String, ◌≡◌, refl, Option, none, some, not, opt_eq, List, []}
use sunbeam_migrate.Config.{Config}
use sunbeam_migrate.Exec.{invalid_input, pure, lift, when, ◌>>=◌, ◌>>◌}
use sunbeam_migrate.Exec.Returns.{
  Returns, Returns-pure, Returns-raise, Returns-if, Returns-bind, Returns-after,
}
use sunbeam_migrate.Handlers.Interface.{MigratedResource, IsHandler}
use sunbeam_migrate.Handlers.Base.{text_of, get_identity_build_kwargs}
use sunbeam_migrate.Handlers.Sdk.{Object, Clouds, IsCloud}
use sunbeam_migrate.Handlers.Common.{text_attribute, get_or_raise, wait_for, or_not_found}
use sunbeam_migrate.Handlers.Owner.Lawful.{
  IsDestination, HasId, created-HasId, found-HasId, destination_session-IsCloud,
}
use sunbeam_migrate.Handlers.Owner.{owner_destination_session}
use sunbeam_migrate.Handlers.Found.{IsId, on_world-IsHandler, new-IsId}
use sunbeam_migrate.Handlers.Barbican.Url.{parse_barbican_url}
use sunbeam_migrate.Handlers.Barbican.Secret.{
  or_no_secret, secret_kwargs, secret_perform, secret_handler,
}
use sunbeam_migrate.Handlers.Barbican.SecretContainer.{
  container_kwargs, container_perform, secret_container_handler,
}
use sunbeam_migrate.Handlers.Manila.Mount.{Host}
use sunbeam_migrate.Handlers.Manila.Share.{
  build_share_kwargs, migrate_share_access_rules, migrate_share_data, create_share, share_perform,
  share_handler,
}
use sunbeam_migrate.Handlers.Designate.Zone.{
  get_zone_all_projects, zone_identity, create_destination_zone, copy_recordsets, zone_perform,
  zone_handler,
}

module _ {W : Type 0} (clouds : Clouds W) (lawful : IsCloud clouds.destination) where
  container_perform-IsId :
      (i : String) (deps : List MigratedResource) → Returns IsId (container_perform clouds i deps)
  unfolding container_perform
  container_perform-IsId i deps =
      Returns-after IsId (get_or_raise clouds.source "secret-container" (parse_barbican_url i)) _
        λ o.
          Returns-after IsId (lift (container_kwargs o deps)) _
            λ kwargs. new-IsId clouds lawful "secret-container" kwargs

  pub secret_container_handler-IsHandler : IsHandler (secret_container_handler clouds)
  unfolding secret_container_handler
  secret_container_handler-IsHandler =
      on_world-IsHandler (secret_container_handler clouds) (container_perform clouds) refl
        container_perform-IsId

  module _ (b64encode : String → String) where
    secret_perform-IsId :
        (i : String) (deps : List MigratedResource)
        → Returns IsId (secret_perform b64encode clouds i deps)
    unfolding secret_perform
    secret_perform-IsId i deps =
        Returns-after IsId (clouds.source.get "secret" (parse_barbican_url i)) _ λ found.
          Returns-after IsId (lift (or_no_secret found)) _
            λ o. new-IsId clouds lawful "secret" (secret_kwargs b64encode o)

    pub secret_handler-IsHandler : IsHandler (secret_handler b64encode clouds)
    unfolding secret_handler
    secret_handler-IsHandler =
        on_world-IsHandler (secret_handler b64encode clouds) (secret_perform b64encode clouds) refl
          secret_perform-IsId

module _ {W : Type 0} (conf : Config) (clouds : Clouds W) (lawful : IsDestination clouds) where
  module _ (host : Host W) where
    create_share-IsId :
        (o : Object) (deps : List MigratedResource)
        → Returns IsId (create_share conf clouds host o deps)
    unfolding create_share
    create_share-IsId o deps =
        Returns-after IsId
          (lift (
            get_identity_build_kwargs conf "project_id" "user_id" deps
              (text_attribute o "project_id") none))
          _
          λ identity.
            Returns-bind IsId IsCloud (owner_destination_session conf clouds identity) _
              (destination_session-IsCloud conf clouds lawful identity)
              λ owner h.
                Returns-after IsId (lift (build_share_kwargs conf clouds o deps)) _ λ kwargs.
                  Returns-bind IsId HasId (owner.create "share" kwargs) _
                    (created-HasId owner h "share" kwargs)
                    λ created has.
                      Returns-after IsId
                        (wait_for clouds.destination "share" created.id "available" "error" 5
                          conf.resource_creation_timeout)
                        _
                        λ _.
                          Returns-after IsId
                            (when conf.preserve_share_access_rules
                              (migrate_share_access_rules conf clouds owner o created.id))
                            _
                            λ _.
                              Returns-after IsId (migrate_share_data conf clouds host o created) _
                                λ _. Returns-pure IsId created.id has

    share_perform-IsId :
        (i : String) (deps : List MigratedResource)
        → Returns IsId (share_perform conf clouds host i deps)
    unfolding share_perform
    share_perform-IsId i deps = Returns-after IsId (get_or_raise clouds.source "share" i) _ λ o.
        Returns-if IsId (not (opt_eq (text_attribute o "share_protocol") (some "NFS"))) _ _
          (λ _. Returns-raise IsId invalid_input) (λ _. create_share-IsId o deps)

    pub share_handler-IsHandler : IsHandler (share_handler conf clouds host)
    unfolding share_handler
    share_handler-IsHandler =
        on_world-IsHandler (share_handler conf clouds host) (share_perform conf clouds host) refl
          share_perform-IsId

  created_zone-HasId :
      (o : Object) (deps : List MigratedResource)
      → Returns HasId (create_destination_zone conf clouds o deps)
  unfolding create_destination_zone
  created_zone-HasId o deps = Returns-after HasId (zone_identity conf clouds o deps) _ λ identity.
      Returns-bind HasId IsCloud (owner_destination_session conf clouds identity) _
        (destination_session-IsCloud conf clouds lawful identity)
        λ owner h. created-HasId owner h "zone" _

  -- The zone of that name, or else a new one.
  found_zone-IsId :
      (existing : Option Object) (i : String) (o : Object) (deps : List MigratedResource)
      → ((z : Object) → existing ≡ some z → HasId z)
      → Returns IsId (elim existing [
        | some z ↦ pure z.id
        | none ↦ do
          z ← create_destination_zone conf clouds o deps
          copy_recordsets conf clouds i z.id deps o
          pure z.id
      ])
  found_zone-IsId (some z) i o deps has = Returns-pure IsId z.id (has z refl)
  found_zone-IsId none i o deps has =
      Returns-bind IsId HasId (create_destination_zone conf clouds o deps) _
        (created_zone-HasId o deps)
        λ z h.
          Returns-after IsId (copy_recordsets conf clouds i z.id deps o) _
            λ _. Returns-pure IsId z.id h

  zone_perform-IsId :
      (i : String) (deps : List MigratedResource) → Returns IsId (zone_perform conf clouds i deps)
  unfolding zone_perform
  zone_perform-IsId i deps = Returns-after IsId (get_zone_all_projects conf clouds i) _ λ found.
      Returns-after IsId (lift (or_not_found found)) _ λ o.
        Returns-after IsId (zone_identity conf clouds o deps) _ λ identity.
          Returns-bind IsId IsCloud (owner_destination_session conf clouds identity) _
            (destination_session-IsCloud conf clouds lawful identity)
            λ owner h.
              Returns-bind IsId (λ existing. (z : Object) → existing ≡ some z → HasId z)
                (owner.find "zone" (text_of (text_attribute o "name")) []) _
                (found-HasId owner h "zone" (text_of (text_attribute o "name")) [])
                λ existing has. found_zone-IsId existing i o deps has

  pub zone_handler-IsHandler : IsHandler (zone_handler conf clouds)
  unfolding zone_handler
  zone_handler-IsHandler =
      on_world-IsHandler (zone_handler conf clouds) (zone_perform conf clouds) refl
        zone_perform-IsId

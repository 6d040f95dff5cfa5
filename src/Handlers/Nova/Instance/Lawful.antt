-- ===== src/Handlers/Nova/Instance/Lawful.antt =====
-- `InstanceHandler` keeps what the manager relies on.
use sunbeam_migrate.Prelude.{String, ◌≡◌, true, truthy, Option, none, some, List}
use sunbeam_migrate.Config.{Config}
use sunbeam_migrate.Exec.{Exec, ok, err, lift, ◌>>◌, try_except, raise}
use sunbeam_migrate.Exec.Returns.{
  Returns, Returns-pure, Returns-bind, Returns-after, Returns-try_finally,
}
use sunbeam_migrate.Db.Models.{Db}
use sunbeam_migrate.Handlers.Interface.{MigratedResource, Perform, IsHandler, on_world}
use sunbeam_migrate.Handlers.Base.{text_of, get_identity_build_kwargs}
use sunbeam_migrate.Handlers.Sdk.{Object, Cloud, Clouds, IsCloud}
use sunbeam_migrate.Handlers.Common.{text_attribute, get_or_raise, wait_for}
use sunbeam_migrate.Handlers.Owner.{owner_sessions}
use sunbeam_migrate.Handlers.Owner.Lawful.{
  IsDestination, HasId, created-HasId, owner_sessions-IsCloud,
}
use sunbeam_migrate.Handlers.Through.{
  Through, Order, Through-on_world, Through-lift, Through-if, Through-bind, Through-try_except,
  Through-try_finally, Returns-on_world,
}
use sunbeam_migrate.Handlers.Cinder.Volume.{image_request}
use sunbeam_migrate.Handlers.Nova.Instance.{
  booted_from_image, source_flavor_id, upload_instance_to_image, build_instance_kwargs,
  create_instance, delete_temporary_images, instance_create, migrate_instance_image,
  instance_perform, instance_handler,
}

abbrev IsId : String → Type 0
IsId d = truthy d ≡ true

module _ {W : Type 0} (conf : Config) (clouds : Clouds W) where
  created_instance-IsId :
      (owner : Cloud W)
      → IsCloud owner
      → (o : Object) (flavor : String) (image : Option String) → (deps : List MigratedResource)
      → Returns IsId (create_instance conf clouds owner o flavor image deps)
  unfolding create_instance
  created_instance-IsId owner lawful o flavor image deps =
      Returns-after IsId (build_instance_kwargs conf clouds o flavor image deps) _ λ kwargs.
        Returns-bind IsId HasId (owner.create "server" kwargs) _
          (created-HasId owner lawful "server" kwargs)
          λ created h.
            Returns-after IsId
              (wait_for clouds.destination "server" created.id "ACTIVE" "ERROR" 5
                conf.resource_creation_timeout)
              _ λ _. Returns-pure IsId created.id h

  instance_create-IsId :
      (owner : Cloud W)
      → IsCloud owner
      → (o : Object) (flavor : String)
      → (images : Option String × Option String) (deps : List MigratedResource)
      → Returns IsId (instance_create conf clouds owner o flavor images deps)
  unfolding instance_create
  instance_create-IsId owner lawful o flavor images deps =
      let action = create_instance conf clouds owner o flavor images.1 deps in
      Returns-try_finally IsId (on_world action)
        (on_world (delete_temporary_images conf clouds images))
        (Returns-on_world IsId action (created_instance-IsId owner lawful o flavor images.1 deps))

  module _ (self : Perform W) where
    instance_perform-IsId :
        IsDestination clouds
        → (i : String) (deps : List MigratedResource)
        → Returns IsId (instance_perform conf clouds self i deps)
    unfolding instance_perform
    instance_perform-IsId lawful i deps =
        Returns-after IsId (on_world (get_or_raise clouds.source "server" i)) _ λ o.
          let project = text_attribute o "project_id" in
          let identity = get_identity_build_kwargs conf "project_id" "user_id" deps project none in
          Returns-after IsId (on_world (source_flavor_id conf clouds o)) _ λ flavor.
            Returns-after IsId (lift identity) _ λ kwargs.
              let sessions = owner_sessions conf clouds (text_of project) kwargs in
              Returns-bind IsId (λ w. IsCloud w.owner_destination) (on_world sessions) _
                (Returns-on_world (λ w. IsCloud w.owner_destination) sessions
                  (owner_sessions-IsCloud conf clouds lawful (text_of project) kwargs))
                λ owner h.
                  Returns-after IsId (migrate_instance_image conf clouds self owner.owner_source o)
                    _ λ images. instance_create-IsId owner.owner_destination h o flavor images deps

    module _ (R : Db → Db → Type 0) (order : Order R) (keeps : (q : _) → Through R (self q)) where
      world : (A : Type 0) (m : Exec W A) → Through R (on_world m)
      world A m = Through-on_world R order m

      migrate_instance_image-Through :
          (owner : Cloud W) (o : Object)
          → Through R (migrate_instance_image conf clouds self owner o)
      unfolding migrate_instance_image
      migrate_instance_image-Through owner o =
          let upload = upload_instance_to_image conf clouds owner o in
          Through-if R order (booted_from_image o) _ _
            (Through-bind R order (on_world upload) _ (world _ upload) λ image.
              let q = image_request image.id in
              let deletion = clouds.source.delete "image" image.id in
              Through-bind R order (try_except (self q) (λ e. on_world deletion >> raise e)) _
                (Through-try_except R order (self q) _ (keeps q) λ e.
                  Through-bind R order (on_world deletion) _ (world _ deletion)
                    λ _. Through-lift R order (err e))
                λ m. Through-lift R order (ok (some image.id, m.destination_id)))
            (Through-lift R order (ok (none, none)))

      instance_perform-Through :
          (i : String) (deps : List MigratedResource)
          → Through R (instance_perform conf clouds self i deps)
      unfolding instance_perform instance_create
      instance_perform-Through i deps =
          Through-bind R order (on_world (get_or_raise clouds.source "server" i)) _ (world _ _) λ o.
            let project = text_attribute o "project_id" in
            let identity =
              get_identity_build_kwargs conf "project_id" "user_id" deps project none in
            let named = source_flavor_id conf clouds o in
            Through-bind R order (on_world named) _ (world _ named) λ flavor.
              Through-bind R order (lift identity) _ (Through-lift R order identity) λ kwargs.
                let sessions = owner_sessions conf clouds (text_of project) kwargs in
                Through-bind R order (on_world sessions) _ (world _ sessions) λ owner.
                  Through-bind R order
                    (migrate_instance_image conf clouds self owner.owner_source o) _
                    (migrate_instance_image-Through owner.owner_source o)
                    λ images.
                      Through-try_finally R order
                        (on_world (
                          create_instance conf clouds owner.owner_destination o flavor images.1
                            deps))
                        (on_world (delete_temporary_images conf clouds images)) (world _ _)
                        (world _ _)

  -- Where every session on the destination gives its resources ids, the instance handler returns
  -- an id that is not empty and reaches the database through the manager alone.
  pub instance_handler-IsHandler : IsDestination clouds → IsHandler (instance_handler conf clouds)
  unfolding instance_handler
  instance_handler-IsHandler lawful = record {
    returns_id = λ self i deps s {d} e. (instance_perform-IsId self lawful i deps).holds s e;
    database_through_manager = λ R reflexive transitive self keeps i deps s.
        (instance_perform-Through self R (record { reflexive = reflexive; transitive = transitive })
            (λ q. record { related = keeps q }) i deps).related
          s;
  }

-- ===== src/Handlers/Cinder/Volume/Lawful.antt =====
-- `VolumeHandler` keeps what the manager relies on.
use sunbeam_migrate.Prelude.{String, ◌≡◌, true, truthy, Option, none, List}
use sunbeam_migrate.Config.{Config}
use sunbeam_migrate.Exec.{Exec, err, pure, lift, when, ◌>>◌}
use sunbeam_migrate.Exec.Returns.{
  Returns, Returns-pure, Returns-bind, Returns-after, Returns-try_finally,
}
use sunbeam_migrate.Db.Models.{Db}
use sunbeam_migrate.Handlers.Interface.{MigratedResource, Perform, IsHandler, on_world}
use sunbeam_migrate.Handlers.Base.{text_of, get_identity_build_kwargs}
use sunbeam_migrate.Handlers.Sdk.{Object, Cloud, Clouds, IsCloud, truth, attribute, entry, end}
use sunbeam_migrate.Handlers.Common.{text_attribute, get_or_raise, wait_for}
use sunbeam_migrate.Handlers.Owner.{Owner, owner_sessions}
use sunbeam_migrate.Handlers.Owner.Lawful.{
  IsDestination, HasId, created-HasId, owner_sessions-IsCloud,
}
use sunbeam_migrate.Handlers.Through.{
  Through, Order, Through-on_world, Through-lift, Through-bind, Through-try_except,
  Through-try_finally, Returns-on_world,
}
use sunbeam_migrate.Handlers.Cinder.Volume.{
  image_request, upload_source_volume_to_image, build_volume_kwargs, create_volume, delete_images,
  migrate_image, volume_through_image, volume_perform, volume_handler,
}

abbrev IsId : String → Type 0
IsId d = truthy d ≡ true

module _ {W : Type 0} (conf : Config) (clouds : Clouds W) where
  created_volume-IsId :
      (owner : Cloud W)
      → IsCloud owner
      → (o : Object) (image : Option String) → (deps : List MigratedResource)
      → Returns IsId (create_volume conf clouds owner o image deps)
  unfolding create_volume
  created_volume-IsId owner lawful o image deps =
      Returns-after IsId (build_volume_kwargs conf clouds o image deps) _ λ kwargs.
        Returns-bind IsId HasId (owner.create "volume" kwargs) _
          (created-HasId owner lawful "volume" kwargs)
          λ created h.
            Returns-after IsId
              (wait_for clouds.destination "volume" created.id "available" "error" 5
                conf.volume_upload_timeout)
              _
              λ _.
                Returns-after IsId
                  (when (truth (attribute o "volume_image_metadata")) (
                    clouds.destination.act "set_volume_image_metadata" created.id
                      (entry "metadata" (attribute o "volume_image_metadata") end)
                    >> pure tt))
                  _ λ _. Returns-pure IsId created.id h

  module _ (self : Perform W) where
    through_image-IsId :
        (owner : Owner W)
        → IsCloud owner.owner_destination
        → (o image : Object) → (deps : List MigratedResource)
        → Returns IsId (volume_through_image conf clouds self owner o image deps)
    unfolding volume_through_image
    through_image-IsId owner lawful o image deps =
        Returns-after IsId (migrate_image conf clouds self image) _ λ m.
          let action = create_volume conf clouds owner.owner_destination o m.destination_id deps in
          Returns-try_finally IsId (on_world action)
            (on_world (delete_images conf clouds image.id m.destination_id))
            (Returns-on_world IsId action
              (created_volume-IsId owner.owner_destination lawful o m.destination_id deps))

    volume_perform-IsId :
        IsDestination clouds
        → (i : String) (deps : List MigratedResource)
        → Returns IsId (volume_perform conf clouds self i deps)
    unfolding volume_perform
    volume_perform-IsId lawful i deps =
        Returns-after IsId (on_world (get_or_raise clouds.source "volume" i)) _ λ o.
          let project = text_attribute o "project_id" in
          Returns-after IsId
            (lift (
              get_identity_build_kwargs conf "project_id" "user_id" deps project
                (text_attribute o "user_id")))
            _
            λ identity.
              let sessions = owner_sessions conf clouds (text_of project) identity in
              Returns-bind IsId (λ w. IsCloud w.owner_destination) (on_world sessions) _
                (Returns-on_world (λ w. IsCloud w.owner_destination) sessions
                  (owner_sessions-IsCloud conf clouds lawful (text_of project) identity))
                λ owner h.
                  Returns-after IsId
                    (on_world (upload_source_volume_to_image conf clouds owner.owner_source o)) _
                    λ image. through_image-IsId owner h o image deps

    module _ (R : Db → Db → Type 0) (order : Order R) (keeps : (q : _) → Through R (self q)) where
      world : (A : Type 0) (m : Exec W A) → Through R (on_world m)
      world A m = Through-on_world R order m

      through_image-Through :
          (owner : Owner W) (o image : Object) (deps : List MigratedResource)
          → Through R (volume_through_image conf clouds self owner o image deps)
      unfolding volume_through_image migrate_image
      through_image-Through owner o image deps =
          let deletion = on_world (delete_images conf clouds image.id none) in
          Through-bind R order (migrate_image conf clouds self image) _
            (Through-try_except R order (self (image_request image.id)) _
              (keeps (image_request image.id))
              λ e. Through-bind R order deletion _ (world _ _) λ _. Through-lift R order (err e))
            λ m.
              Through-try_finally R order
                (on_world
                  (create_volume conf clouds owner.owner_destination o m.destination_id deps))
                (on_world (delete_images conf clouds image.id m.destination_id)) (world _ _)
                (world _ _)

      volume_perform-Through :
          (i : String) (deps : List MigratedResource)
          → Through R (volume_perform conf clouds self i deps)
      unfolding volume_perform
      volume_perform-Through i deps =
          Through-bind R order (on_world (get_or_raise clouds.source "volume" i)) _ (world _ _) λ o.
            let project = text_attribute o "project_id" in
            let identity =
              get_identity_build_kwargs conf "project_id" "user_id" deps project
                (text_attribute o "user_id") in
            Through-bind R order (lift identity) _ (Through-lift R order identity) λ kwargs.
              let sessions = owner_sessions conf clouds (text_of project) kwargs in
              Through-bind R order (on_world sessions) _ (world _ sessions) λ owner.
                let upload = upload_source_volume_to_image conf clouds owner.owner_source o in
                Through-bind R order (on_world upload) _ (world _ upload)
                  λ image. through_image-Through owner o image deps

  -- Where every session on the destination gives its resources ids, the volume handler returns an
  -- id that is not empty and reaches the database through the manager alone.
  pub volume_handler-IsHandler : IsDestination clouds → IsHandler (volume_handler conf clouds)
  unfolding volume_handler
  volume_handler-IsHandler lawful = record {
    returns_id = λ self i deps s {d} e. (volume_perform-IsId self lawful i deps).holds s e;
    database_through_manager = λ R reflexive transitive self keeps i deps s.
        (volume_perform-Through self R (record { reflexive = reflexive; transitive = transitive })
            (λ q. record { related = keeps q }) i deps).related
          s;
  }

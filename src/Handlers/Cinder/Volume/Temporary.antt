-- ===== src/Handlers/Cinder/Volume/Temporary.antt =====
-- The temporary image of a volume does not outlive its migration.
use sunbeam_migrate.Prelude.{String, Option, none, List, set?}
use sunbeam_migrate.Config.{Config}
use sunbeam_migrate.Exec.{pure, raise}
use sunbeam_migrate.Exec.Preserves.{Preserves-pure, Preserves-raise, Preserves-if}
use sunbeam_migrate.Exec.Leaves.{
  Leaves, Leaves-bind, Leaves-first, Leaves-try_finally, Fails-try_except,
}
use sunbeam_migrate.Handlers.Interface.{MigratedResource, State, Perform, on_world}
use sunbeam_migrate.Handlers.Base.{text_of}
use sunbeam_migrate.Handlers.Sdk.{Object, Clouds}
use sunbeam_migrate.Handlers.Owner.{Owner}
use sunbeam_migrate.Handlers.Cinder.Volume.{
  image_request, create_volume, delete_images, migrate_image, volume_through_image,
}

module _ {W : Type 0} (conf : Config) (clouds : Clouds W) (Deleted : W → Type 0) where
  delete_images-Leaves :
      (i : String)
      → ((w : W) → Deleted (clouds.source.delete "image" i w).1)
      → ((d : String) (w : W) → Deleted w → Deleted (clouds.destination.delete "image" d w).1)
      → (d : Option String)
      → Leaves (λ s. Deleted s.world) (on_world (delete_images conf clouds i d))
  unfolding delete_images
  delete_images-Leaves i asked kept d =
      let first : Leaves Deleted (clouds.source.delete "image" i) = record { at_end = asked } in
      let both = Leaves-first Deleted (clouds.source.delete "image" i) _ first λ done.
        Preserves-if (set? d) (clouds.destination.delete "image" (text_of d)) (pure tt)
          (λ _. record { after = λ w p. kept (text_of d) w p }) (λ _. Preserves-pure tt) in
      record { at_end = λ s. both.at_end s.world }

  -- Once a volume has been uploaded to an image, the migration ends, whether it returns or raises
  -- and whatever the manager does with the image, in a state in which the deletion of the image on
  -- the source has been asked for; `Deleted` is any property that asking for it establishes and
  -- that a deletion on the destination keeps.
  pub volume_through_image-Leaves :
      (self : Perform W) (owner : Owner W) (o image : Object) (deps : List MigratedResource)
      → ((w : W) → Deleted (clouds.source.delete "image" image.id w).1)
      → ((d : String) (w : W) → Deleted w → Deleted (clouds.destination.delete "image" d w).1)
      → (s : State W) → Deleted (volume_through_image conf clouds self owner o image deps s).1.world
  unfolding volume_through_image migrate_image
  volume_through_image-Leaves self owner o image deps asked kept s =
      let P : State W → Type 0 = λ t. Deleted t.world in
      let last = delete_images-Leaves image.id asked kept in
      let migrated = Fails-try_except P (self (image_request image.id)) _ λ e.
        Leaves-first P (on_world (delete_images conf clouds image.id none)) (λ _. raise e)
          (last none) λ _. Preserves-raise e in
      let whole = Leaves-bind P (migrate_image conf clouds self image) _ migrated λ m.
        Leaves-try_finally P
          (on_world (create_volume conf clouds owner.owner_destination o m.destination_id deps))
          (on_world (delete_images conf clouds image.id m.destination_id))
          (last m.destination_id) in
      whole.at_end s

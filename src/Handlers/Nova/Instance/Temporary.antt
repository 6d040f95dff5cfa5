-- ===== src/Handlers/Nova/Instance/Temporary.antt =====
-- The temporary image of an instance does not outlive its creation.
use sunbeam_migrate.Prelude.{String, Option, some, List, set?}
use sunbeam_migrate.Config.{Config}
use sunbeam_migrate.Exec.{pure}
use sunbeam_migrate.Exec.Preserves.{Preserves-pure, Preserves-if}
use sunbeam_migrate.Exec.Leaves.{Leaves, Leaves-first, Leaves-try_finally}
use sunbeam_migrate.Handlers.Interface.{MigratedResource, State, on_world}
use sunbeam_migrate.Handlers.Base.{text_of}
use sunbeam_migrate.Handlers.Sdk.{Object, Cloud, Clouds}
use sunbeam_migrate.Handlers.Nova.Instance.{
  create_instance, delete_temporary_images, instance_create,
}

-- Whether the creation of an instance returns or raises, it ends in a state in which the deletion
-- of the temporary image on the source has been asked for; `Deleted` is any property that asking
-- for it establishes and that a deletion on the destination keeps.
pub instance_create-Leaves :
    {W : Type 0} (conf : Config) (clouds : Clouds W) (Deleted : W → Type 0) (owner : Cloud W)
    → (o : Object) (flavor i : String) (d : Option String) (deps : List MigratedResource)
    → ((w : W) → Deleted (clouds.source.delete "image" i w).1)
    → ((d : String) (w : W) → Deleted w → Deleted (clouds.destination.delete "image" d w).1)
    → (s : State W)
    → Deleted (instance_create conf clouds owner o flavor (some i, d) deps s).1.world
unfolding instance_create delete_temporary_images
instance_create-Leaves {W} conf clouds Deleted owner o flavor i d deps asked kept s =
    let P : State W → Type 0 = λ t. Deleted t.world in
    let first : Leaves Deleted (clouds.source.delete "image" i) = record { at_end = asked } in
    let both = Leaves-first Deleted (clouds.source.delete "image" i) _ first λ done.
      Preserves-if (set? d) (clouds.destination.delete "image" (text_of d)) (pure tt)
        (λ _. record { after = λ w p. kept (text_of d) w p }) (λ _. Preserves-pure tt) in
    let last : Leaves P (on_world (delete_temporary_images conf clouds (some i, d))) = record {
      at_end = λ t. both.at_end t.world;
    } in
    let whole =
      Leaves-try_finally P (on_world (create_instance conf clouds owner o flavor d deps))
        (on_world (delete_temporary_images conf clouds (some i, d))) last in
    whole.at_end s

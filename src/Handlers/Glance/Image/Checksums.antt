-- ===== src/Handlers/Glance/Image/Checksums.antt =====
-- An image counts as migrated only if its checksum is right.
use sunbeam_migrate.Prelude.{
  String, ◌≡◌, true, false, ◌⊎◌, inl, inr, Bool-cases, opt_eq→eq, set?, Option, some, none, List,
  arith, if◌then◌else◌,
}
use sunbeam_migrate.Config.{Config}
use sunbeam_migrate.Exec.{ok, lift, pure, raise, invalid}
use sunbeam_migrate.Exec.Chained.{bind-Chained}
use sunbeam_migrate.Handlers.Interface.{MigratedResource}
use sunbeam_migrate.Handlers.Sdk.{Object, Clouds}
use sunbeam_migrate.Handlers.Common.{text_attribute, get_or_raise}
use sunbeam_migrate.Handlers.Owner.{or_attribute_error}
use sunbeam_migrate.Handlers.Glance.Image.{
  Transfer, checksums_agree, image_kwargs, chunked_image_reader, image_perform,
}

-- One of the images has no checksum, or they have the same one.
abbrev pub SameData : Object → Object → Type 0
SameData o created =
    (set? (text_attribute o "checksum") ≡ false)
    ⊎ ((set? (text_attribute created "checksum") ≡ false)
        ⊎ (text_attribute created "checksum" ≡ text_attribute o "checksum"))

checksums_agree-SameData :
    (o created : Object) → checksums_agree o created ≡ true → SameData o created
unfolding checksums_agree
checksums_agree-SameData o created h =
    let a = text_attribute o "checksum" in
    let b = text_attribute created "checksum" in
    elim (Bool-cases (set? a)) [
      | inr unset ↦ inl unset
      | inl named ↦ elim (Bool-cases (set? b)) [
        | inr unset ↦ inr (inl unset)
        | inl present ↦ inr (inr (opt_eq→eq b a (ground arith)))
      ]
    ]

-- The source image as it was read, and the result as it was read back from the destination, in
-- some state `after`, with the same data.
pub record Verified {W : Type 0} (clouds : Clouds W) (i d : String) (w : W) : Type 0 where
  pub source : Object
  pub created : Object
  pub created_id : String
  pub after : W
  pub read : (get_or_raise clouds.source "image" i w).0 ≡ ok source
  pub read_back : (clouds.destination.get "image" created_id after).0 ≡ ok (some created)
  pub is_result : created.id ≡ d
  pub same : SameData source created

object_of : (found : Option Object) (o : Object) → or_attribute_error found ≡ ok o → found ≡ some o
object_of none o e = absurd (cc e)
object_of (some x) o e = cc e

module _ {W : Type 0} (conf : Config) (clouds : Clouds W) (transfer : Transfer W) where
  agreed :
      (o created : Object) (w : W) {d : String}
      → ((if checksums_agree o created then pure created.id else raise invalid) w).0 ≡ ok d
      → (created.id ≡ d) × SameData o created
  agreed o created w e = elim (Bool-cases (checksums_agree o created)) [
    | inl agree ↦ (ground arith, checksums_agree-SameData o created agree)
    | inr differ ↦ absurd (ground arith)
  ]

  -- An image's migration returns only the id of an image that it has read back from the
  -- destination, and whose checksum is that of the source image, unless one of the two has none.
  pub image_perform-Verified :
      (i : String) (deps : List MigratedResource) (w : W) {d : String}
      → (image_perform conf clouds transfer i deps w).0 ≡ ok d
      → Verified clouds i d w
  unfolding image_perform
  image_perform-Verified i deps w e =
      let c1 = bind-Chained (get_or_raise clouds.source "image" i) _ w e in
      let o = c1.value in
      let w1 = (get_or_raise clouds.source "image" i w).1 in
      let c2 = bind-Chained (lift (image_kwargs conf clouds o deps)) _ w1 c1.rest in
      let reader = chunked_image_reader conf clouds transfer o conf.image_transfer_chunk_size in
      let (chunks, w2) = reader w1 in
      let c4 = bind-Chained (transfer.create_image chunks c2.value) _ w2 c2.rest in
      let w3 = (transfer.create_image chunks c2.value w2).1 in
      let c5 = bind-Chained (clouds.destination.get "image" c4.value.id) _ w3 c4.rest in
      let c6 = bind-Chained (lift (or_attribute_error c5.value)) _ _ c5.rest in
      let (is_result, same) = agreed o c6.value _ c6.rest in
      let found = object_of c5.value c6.value c6.first in
      record {
        source = o;
        created = c6.value;
        created_id = c4.value.id;
        after = w3;
        read = c1.first;
        read_back = cc (c5.first, found);
        is_result = is_result;
        same = same;
      }

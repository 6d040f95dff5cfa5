-- ===== src/Handlers/Designate/Zone/Recordsets.antt =====
-- The recordsets of a zone are copied one by one, whichever of them cannot be created.
use sunbeam_migrate.Prelude.{
  String, ◌≡◌, refl, ap, sym, ◌∙◌, Bool-cases, inl, inr, not, Bool, true, false, Option, none, some,
  List, [], ◌∷◌, ◌++◌, map, keep, arith, Option-cases,
}
use mathlib.Core.List.{append_assoc, append-nil}
use sunbeam_migrate.Config.{Config}
use sunbeam_migrate.Exec.{Result, ok, err, Exec, handle, continue, pure, try_except, ◌>>◌}
use sunbeam_migrate.Handlers.Base.{contains}
use sunbeam_migrate.Handlers.Common.{text_attribute}
use sunbeam_migrate.Handlers.Sdk.{Object, Kwargs, Cloud, Clouds}
use sunbeam_migrate.Handlers.Designate.Zone.{auto_created, recordset_kwargs, copy_each}

-- The types of the recordsets that are left out.
pub skipped_types : List String
skipped_types = "NS" ∷ "SOA" ∷ []

is_skipped : Option String → Bool
is_skipped none = false
is_skipped (some t) = contains t skipped_types

-- The arguments of the creations: those of each recordset whose type is not left out.
pub copied : String → List Object → List Kwargs
copied zone os =
    map (recordset_kwargs zone) (keep (λ o. not (is_skipped (text_attribute o "type"))) os)

auto_created-skipped : (o : Object) → auto_created o ≡ is_skipped (text_attribute o "type")
unfolding auto_created is_skipped skipped_types
auto_created-skipped o = elim (Option-cases (text_attribute o "type")) [
  | inl untyped ↦ rw (auto_created, untyped) refl
  | inr (t, typed) ↦ rw (auto_created, typed) (ground arith)
]

module _ {W A : Type 0} where
  ignored_result :
      (r : Result A) (w : W)
      → (let x = continue (λ _. pure {S = W} tt) r w in handle (λ e. pure tt) x.0 x.1) ≡ (ok tt, w)
  ignored_result (ok a) w = refl
  ignored_result (err e) w = refl

  ignored : (m : Exec W A) (w : W) → try_except (m >> pure tt) (λ e. pure tt) w ≡ (ok tt, (m w).1)
  ignored m w = ignored_result (m w).0 (m w).1

module _ {W : Type 0} (conf : Config) (clouds : Clouds W) (owner : Cloud W)
    (log : W → List Kwargs) where
  -- Where `log` is a record of the creations of recordsets that the cloud was asked for, the loop
  -- asks for each recordset but those of the types NS and SOA, whatever their name, once and in order, and returns,
  -- whichever of the creations raise.
  pub copy_each-copied :
      ((kwargs : Kwargs) (w : W) → log (owner.create "recordset" kwargs w).1 ≡ log w ++ kwargs ∷ [])
      → (zone : String) (os : List Object) (w : W)
      → ((copy_each conf clouds owner zone os w).0 ≡ ok tt)
        × (log (copy_each conf clouds owner zone os w).1 ≡ log w ++ copied zone os)
  unfolding copy_each copied
  copy_each-copied logs zone [] w = (refl, sym (append-nil (log w)))
  copy_each-copied logs zone (o ∷ os) w =
      let same = auto_created-skipped o in
      elim (Bool-cases (auto_created o)) [
        | inl auto ↦
            let left_out : is_skipped (text_attribute o "type") ≡ true = cc (same, auto) in
            rw (auto, left_out) (copy_each-copied logs zone os w)
        | inr other ↦
            let taken : is_skipped (text_attribute o "type") ≡ false = cc (same, other) in
            let kwargs = recordset_kwargs zone o in
            let create = owner.create "recordset" kwargs in
            let (returned, rest) = copy_each-copied logs zone os (create w).1 in
            let done = ignored create w in
            let assoc = append_assoc (log w) (kwargs ∷ []) (copied zone os) in
            let here = logs kwargs w in
            rw (other, taken, done) (returned, rest ∙ ap (λ l. l ++ copied zone os) here ∙ assoc)
      ]

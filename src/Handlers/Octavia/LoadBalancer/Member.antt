-- ===== src/Handlers/Octavia/LoadBalancer/Member.antt =====
-- The subnet of a pool's member on the destination.
use sunbeam_migrate.Prelude.{
  String, ◌≡◌, refl, sym, ap, ◌∙◌, Bool, true, false, ◌==◌, Bool-cases, inl, inr, eq_iff, set?,
  Option, List, [], ◌∷◌, All, Any, if◌then◌else◌,
}
use sunbeam_migrate.Exec.{Result, ok, err, not_found, result_map}
use sunbeam_migrate.Handlers.Interface.{MigratedResource}
use sunbeam_migrate.Handlers.Base.{text_of, is_resource, get_associated_resource_destination_id}
use sunbeam_migrate.Handlers.Sdk.{
  Value, Entries, Object, Kwargs, null, text, end, entry, entry_get, entry_set, copy_fields,
  attribute, not_none,
}
use sunbeam_migrate.Handlers.Common.{text_attribute}
use sunbeam_migrate.Handlers.Octavia.Create.{
  member_fields, with_destination_id, unless_not_found, member_kwargs,
}

entry_get-entry_set : (k : String) (v : Value) (es : Entries) → entry_get k (entry_set k v es) ≡ v
unfolding entry_get entry_set
entry_get-entry_set k v end = let same = (eq_iff k k).1 refl in rw same refl
entry_get-entry_set k v (entry j w es) = elim (Bool-cases (k == j)) [
  | inl here ↦ rw here (rw here refl)
  | inr there ↦ rw there (rw there (entry_get-entry_set k v es))
]

-- An assignment to another key.
entry_get-entry_set_other :
    (k j : String) (v : Value) (es : Entries)
    → (k == j) ≡ false
    → entry_get k (entry_set j v es) ≡ entry_get k es
unfolding entry_get entry_set
entry_get-entry_set_other k j v end other = rw other refl
entry_get-entry_set_other k j v (entry i w es) other = elim (Bool-cases (j == i)) [
  | inl here ↦
      let same : j ≡ i = (eq_iff j i).0 here in
      let apart : (k == i) ≡ false = rw (sym same) other in rw here (rw apart refl)
  | inr there ↦
      rw there (ap (λ x. if k == i then w else x) (entry_get-entry_set_other k j v es other))
]

-- A key that is not among the copied fields.
entry_get-copy_fields :
    (k : String) (keep : Value → Bool) (fs : List String) (o : Object) (kwargs : Kwargs)
    → All (λ f. (k == f) ≡ false) fs
    → entry_get k (copy_fields keep fs o kwargs) ≡ entry_get k kwargs
unfolding copy_fields
entry_get-copy_fields k keep [] o kwargs apart = refl
entry_get-copy_fields k keep (f ∷ fs) o kwargs apart =
    entry_get-copy_fields k keep fs o _ apart.1 ∙ elim (Bool-cases (keep (attribute o f))) [
      | inl kept ↦ rw kept (entry_get-entry_set_other k f (attribute o f) kwargs apart.0)
      | inr left_out ↦ rw left_out refl
    ]

-- What a member's `subnet_id` on the source becomes: nothing where it names no subnet or the subnet
-- is not among the migrated resources, and else the destination of an entry for the subnet.
pub data Placed (deps : List MigratedResource) : Option String → Value → Type 0 where
  unset : {i : Option String} → set? i ≡ false → Placed deps i null
  unknown :
      {i : Option String}
      → All (λ d. is_resource "subnet" (text_of i) d ≡ false) deps
      → Placed deps i null
  known :
      {i : Option String} (x : String)
      → Any (λ d. (is_resource "subnet" (text_of i) d ≡ true) × (d.destination_id ≡ x)) deps
      → Placed deps i (text x)

-- The outcomes of a lookup.
data Looked (t i : String) (deps : List MigratedResource) : Result String → Type 0 where
  found :
      (x : String)
      → Any (λ d. (is_resource t i d ≡ true) × (d.destination_id ≡ x)) deps
      → Looked t i deps (ok x)
  missing : All (λ d. is_resource t i d ≡ false) deps → Looked t i deps (err not_found)

later :
    (t i : String) (d : MigratedResource) (deps : List MigratedResource) {r : Result String}
    → is_resource t i d ≡ false
    → Looked t i deps r
    → Looked t i (d ∷ deps) r
later t i d deps other (found x h) = found x (inr h)
later t i d deps other (missing h) = missing (other, h)

lookup-Looked :
    (t i : String) (deps : List MigratedResource)
    → Looked t i deps (get_associated_resource_destination_id t i deps)
unfolding get_associated_resource_destination_id
lookup-Looked t i [] = missing tt
lookup-Looked t i (d ∷ deps) = elim (Bool-cases (is_resource t i d)) [
  | inl here ↦ rw here (found d.destination_id (inl (here, refl)))
  | inr other ↦ rw other (later t i d deps other (lookup-Looked t i deps))
]

-- Arguments in which the subnet is placed.
abbrev HasSubnet : List MigratedResource → Option String → Result Kwargs → Type 0
HasSubnet deps subnet r =
    (kwargs : Kwargs) × (r ≡ ok kwargs) × Placed deps subnet (entry_get "subnet_id" kwargs)

Looked-HasSubnet :
    (deps : List MigratedResource) (subnet : Option String) (fields : Kwargs)
    → entry_get "subnet_id" fields ≡ null
    → (r : Result String) → Looked "subnet" (text_of subnet) deps r
    → HasSubnet deps subnet
        (unless_not_found fields (result_map (λ d. entry_set "subnet_id" (text d) fields) r))
Looked-HasSubnet deps subnet fields absent _ (found x h) = (
  entry_set "subnet_id" (text x) fields,
  refl,
  rw (entry_get-entry_set "subnet_id" (text x) fields) (known x h),
)
Looked-HasSubnet deps subnet fields absent _ (missing h) = (fields, refl, rw absent (unknown h))

fields_absent :
    (o : Object) → entry_get "subnet_id" (copy_fields not_none member_fields o end) ≡ null
unfolding entry_get member_fields
fields_absent o =
    entry_get-copy_fields "subnet_id" not_none member_fields o end
      (refl, (refl, (refl, (refl, (refl, (refl, (refl, (refl, tt))))))))

-- The arguments of a pool member's creation can be built whatever has been migrated. Their subnet
-- is the destination of the member's subnet; it is left out where the member names none, and where
-- that subnet is not among the migrated resources.
pub member_kwargs-Placed :
    (o : Object) (deps : List MigratedResource)
    → (kwargs : Kwargs) × (member_kwargs o deps ≡ ok kwargs)
      × Placed deps (text_attribute o "subnet_id") (entry_get "subnet_id" kwargs)
unfolding member_kwargs with_destination_id
member_kwargs-Placed o deps =
    let subnet = text_attribute o "subnet_id" in
    let fields = copy_fields not_none member_fields o end in
    elim (Bool-cases (set? subnet)) [
      | inl named ↦ rw named (
          Looked-HasSubnet deps subnet fields (fields_absent o) _
            (lookup-Looked "subnet" (text_of subnet) deps))
      | inr unnamed ↦ rw unnamed (fields, refl, rw (fields_absent o) (unset unnamed))
    ]

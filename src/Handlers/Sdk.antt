-- ===== src/Handlers/Sdk.antt =====
-- The OpenStack SDK, a parameter: its objects are dictionaries of Python values, its calls are
-- actions on the clouds.
use sunbeam_migrate.Prelude.{
  ℕ, zero, suc, String, ◌≡◌, Bool, true, false, Option, none, some, List, [], ◌∷◌, ◌==◌, truthy,
  if◌then◌else◌,
}
use sunbeam_migrate.Exec.{Exec, ok}

mutual
  pub data Value : Type 0 where
    null : Value
    bool : Bool → Value
    num : ℕ → Value
    text : String → Value
    bytes : String → Value
    list : Items → Value
    dict : Entries → Value

  pub data Items : Type 0 where
    nil : Items
    cons : Value → Items → Items

  pub data Entries : Type 0 where
    end : Entries
    entry : String → Value → Entries → Entries

-- `bool(value)`
abbrev pub truth : Value → Bool
truth null = false
truth (bool b) = b
truth (num zero) = false
truth (num (suc n)) = true
truth (text s) = truthy s
truth (bytes s) = truthy s
truth (list nil) = false
truth (list (cons v vs)) = true
truth (dict end) = false
truth (dict (entry k v es)) = true

-- `value is not None`
abbrev pub not_none : Value → Bool
not_none null = false
not_none _ = true

-- `value not in (None, {})`
abbrev pub not_none_or_empty : Value → Bool
not_none_or_empty null = false
not_none_or_empty (dict end) = false
not_none_or_empty _ = true

-- An identifier, or `None`.
abbrev pub as_text : Value → Option String
as_text (text s) = some s
as_text _ = none

-- `d.get(key)` and `d[key] = value`
unfoldable pub entry_get : String → Entries → Value
entry_get k end = null
entry_get k (entry j v es) = if k == j then v else entry_get k es

unfoldable pub entry_set : String → Value → Entries → Entries
entry_set k v end = entry k v end
entry_set k v (entry j w es) = if k == j then entry j v es else entry j w (entry_set k v es)

-- `value.get(key)` of a value that is a dictionary.
abbrev pub member : String → Value → Value
member k (dict es) = entry_get k es
member k _ = null

abbrev pub items_of : Value → Items
items_of (list vs) = vs
items_of _ = nil

-- An object of the SDK: its id, and its other attributes, absent ones being `None`.
pub record Object : Type 0 where
  pub id : String
  pub attributes : Entries

abbrev pub Kwargs : Type 0
Kwargs = Entries

-- `getattr(obj, field, None)`
abbrev pub attribute : Object → String → Value
attribute o k = entry_get k o.attributes

-- `for field in fields: value = getattr(…); if keep(value): kwargs[field] = value`
unfoldable pub copy_fields : (Value → Bool) → List String → Object → Kwargs → Kwargs
unfolding entry_get entry_set
copy_fields keep [] o kwargs = kwargs
copy_fields keep (f ∷ fs) o kwargs =
    copy_fields keep fs o
      (if keep (attribute o f) then entry_set f (attribute o f) kwargs else kwargs)

-- `kwargs.update(identity_kwargs)`
unfoldable pub update_kwargs : List (String × String) → Kwargs → Kwargs
unfolding entry_set
update_kwargs [] kwargs = kwargs
update_kwargs ((k, v) ∷ more) kwargs = update_kwargs more (entry_set k (text v) kwargs)

-- A session on one cloud. The first argument names the kind of resource.
pub record Cloud (W : Type 0) : Type 0 where
  pub get : String → String → Exec W (Option Object)
  pub find : String → String → List (String × String) → Exec W (Option Object)
  pub list_all : String → List (String × String) → Exec W (List Object)
  pub create : String → Kwargs → Exec W Object
  pub update : String → String → Kwargs → Exec W (Unit {0})
  pub delete : String → String → Exec W (Unit {0})
  pub add_interface_to_router : Option String → String → Exec W (Unit {0})
  -- any other call: its name, the id of the object that it acts on, and its keyword arguments
  pub act : String → String → Kwargs → Exec W Value

pub record Clouds (W : Type 0) : Type 0 where
  pub source : Cloud W
  pub destination : Cloud W
  -- the sessions that `connect_as_project` returns for a project
  pub source_as : String → Cloud W
  pub destination_as : String → Cloud W
  -- `int.from_bytes(os.urandom(4))`, as it is written into a name
  pub random_text : Exec W String
  -- the order in which Python lists the members of a set
  pub set_order : List String → List String

-- What the handlers rely on: the resources that a cloud returns have ids.
pub record IsCloud {W : Type 0} (c : Cloud W) : Type 0 where
  pub created_id :
      (kind : String) (kwargs : Kwargs) (w : W) {o : Object}
      → (c.create kind kwargs w).0 ≡ ok o
      → truthy o.id ≡ true
  pub found_id :
      (kind name : String) (kwargs : List (String × String)) (w : W) {o : Object}
      → (c.find kind name kwargs w).0 ≡ ok (some o)
      → truthy o.id ≡ true

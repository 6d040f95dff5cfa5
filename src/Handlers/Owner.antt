-- ===== src/Handlers/Owner.antt =====
-- handlers/base.py: `_owner_scoped_session`, and what the handlers that act for the owner of a
-- resource share.
pub mod Lawful
use sunbeam_migrate.Prelude.{true, String, ◌==◌, Option, none, some, List, [], ◌∷◌, if◌then◌else◌}
use sunbeam_migrate.Config.{Config}
use sunbeam_migrate.Exec.{
  Result, ok, err, Exec, key_error, attribute_error, sdk_not_found, pure, lift, ◌>>=◌, ◌>>◌,
}
use sunbeam_migrate.Handlers.Sdk.{
  Value, Object, text, bool, end, entry, as_text, member, Cloud, Clouds,
}
use sunbeam_migrate.Handlers.Common.{id_of}

-- `d[key]` in a dictionary of texts.
unfoldable pub get_key : String → List (String × String) → Result String
get_key k [] = err key_error
get_key k ((j, v) ∷ d) = if k == j then ok v else get_key k d

-- `value[key]` of an identifier in a dictionary.
abbrev pub member_text : String → Value → Result String
member_text k v = elim (as_text (member k v)) [ none ↦ err key_error | some s ↦ ok s ]

-- `obj.id`, where the object may be `None`.
abbrev pub or_attribute_error : Option Object → Result Object
or_attribute_error none = err attribute_error
or_attribute_error (some o) = ok o

-- `find_…(name, ignore_missing=False)`
abbrev pub or_sdk_not_found : Option Object → Result Object
or_sdk_not_found none = err sdk_not_found
or_sdk_not_found (some o) = ok o

module _ {W : Type 0} where
  -- `_assign_project_role_to_current_user`
  unfoldable pub assign_project_role_to_current_user : Cloud W → String → String → Exec W (Unit {0})
  assign_project_role_to_current_user session role project =
      session.act "grant_role" role (entry "project" (text project) (entry "wait" (bool true) end))
      >> pure tt

  -- `_owner_scoped_session`, for the one role that its callers pass.
  unfoldable pub owner_scoped_session :
      Cloud W → (String → Cloud W) → String → String → Exec W (Cloud W)
  unfolding assign_project_role_to_current_user
  owner_scoped_session session as_project role project = do
    assign_project_role_to_current_user session role project
    found ← session.get "project" project
    session.act "connect_as_project" (id_of found) end
    pure (as_project (id_of found))

-- The sessions of the owner, or those of the program where tenants are not told apart.
pub record Owner (W : Type 0) : Type 0 where
  pub owner_source : Cloud W
  pub owner_destination : Cloud W

module _ {W : Type 0} (conf : Config) (clouds : Clouds W) where
  unfoldable pub owner_sessions : String → List (String × String) → Exec W (Owner W)
  unfolding owner_scoped_session get_key
  owner_sessions project identity =
      if conf.multitenant_mode
      then (do
        s ← owner_scoped_session clouds.source clouds.source_as conf.member_role_name project
        p ← lift (get_key "project_id" identity)
        d ← owner_scoped_session clouds.destination clouds.destination_as conf.member_role_name p
        pure (record { owner_source = s; owner_destination = d }))
      else pure (record { owner_source = clouds.source; owner_destination = clouds.destination })

  -- A session of the owner on the destination alone.
  unfoldable pub owner_destination_session : List (String × String) → Exec W (Cloud W)
  unfolding owner_scoped_session get_key
  owner_destination_session identity =
      if conf.multitenant_mode
      then (do
        p ← lift (get_key "project_id" identity)
        owner_scoped_session clouds.destination clouds.destination_as conf.member_role_name p)
      else pure clouds.destination

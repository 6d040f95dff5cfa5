-- ===== src/Handlers/Owner/Lawful.antt =====
-- The sessions of an owner are sessions on a cloud that gives its resources ids.
use sunbeam_migrate.Prelude.{String, ◌≡◌, true, truthy, some, List}
use sunbeam_migrate.Config.{Config}
use sunbeam_migrate.Exec.{lift}
use sunbeam_migrate.Exec.Returns.{Returns, Returns-pure, Returns-if, Returns-bind, Returns-after}
use sunbeam_migrate.Handlers.Sdk.{end, Object, Kwargs, Cloud, Clouds, IsCloud}
use sunbeam_migrate.Handlers.Common.{id_of}
use sunbeam_migrate.Handlers.Owner.{
  Owner, get_key, owner_scoped_session, owner_sessions, owner_destination_session,
  assign_project_role_to_current_user,
}

-- Every session on the destination gives its resources ids.
pub record IsDestination {W : Type 0} (clouds : Clouds W) : Type 0 where
  pub own : IsCloud clouds.destination
  pub as_project : (p : String) → IsCloud (clouds.destination_as p)

abbrev pub HasId : Object → Type 0
HasId o = truthy o.id ≡ true

module _ {W : Type 0} where
  pub created-HasId :
      (c : Cloud W)
      → IsCloud c
      → (kind : String) (kwargs : Kwargs) → Returns HasId (c.create kind kwargs)
  created-HasId c lawful kind kwargs = record { holds = λ w e. lawful.created_id kind kwargs w e }

  -- What `find_…` returns, if anything, has an id.
  pub found-HasId :
      (c : Cloud W)
      → IsCloud c
      → (kind name : String) (kwargs : List (String × String))
      → Returns (λ found. (o : Object) → found ≡ some o → HasId o) (c.find kind name kwargs)
  found-HasId c lawful kind name kwargs = record {
    holds = λ w e o f. lawful.found_id kind name kwargs w {o = o} (cc (e, f));
  }

module _ {W : Type 0} (conf : Config) (clouds : Clouds W) (lawful : IsDestination clouds) where
  scoped-IsCloud :
      (role project : String)
      → Returns IsCloud (owner_scoped_session clouds.destination clouds.destination_as role project)
  unfolding owner_scoped_session assign_project_role_to_current_user
  scoped-IsCloud role project =
      Returns-after IsCloud (assign_project_role_to_current_user clouds.destination role project) _
        λ _. Returns-after IsCloud (clouds.destination.get "project" project) _ λ found.
          Returns-after IsCloud (clouds.destination.act "connect_as_project" (id_of found) end) _
            λ _. Returns-pure IsCloud (clouds.destination_as (id_of found)) (lawful.as_project _)

  pub destination_session-IsCloud :
      (identity : List (String × String))
      → Returns IsCloud (owner_destination_session conf clouds identity)
  unfolding owner_destination_session
  destination_session-IsCloud identity =
      Returns-if IsCloud conf.multitenant_mode _ _
        (λ _.
          Returns-after IsCloud (lift (get_key "project_id" identity)) _
            λ p. scoped-IsCloud conf.member_role_name p)
        (λ _. Returns-pure IsCloud clouds.destination lawful.own)

  pub owner_sessions-IsCloud :
      (project : String) (identity : List (String × String))
      → Returns (λ o. IsCloud o.owner_destination) (owner_sessions conf clouds project identity)
  unfolding owner_sessions
  owner_sessions-IsCloud project identity =
      let role = conf.member_role_name in
      let P : Owner W → Type 0 = λ o. IsCloud o.owner_destination in
      Returns-if P conf.multitenant_mode _ _
        (λ _.
          Returns-after P (owner_scoped_session clouds.source clouds.source_as role project) _ λ s.
            Returns-after P (lift (get_key "project_id" identity)) _ λ p.
              Returns-bind P IsCloud
                (owner_scoped_session clouds.destination clouds.destination_as role p) _
                (scoped-IsCloud role p)
                λ d h. Returns-pure P (record { owner_source = s; owner_destination = d }) h)
        (λ _.
          Returns-pure P
            (record { owner_source = clouds.source; owner_destination = clouds.destination })
            lawful.own)

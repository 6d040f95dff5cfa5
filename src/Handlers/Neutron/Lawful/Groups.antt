-- ===== src/Handlers/Neutron/Lawful/Groups.antt =====
-- The handlers of security groups and their rules keep what the manager relies on, on a cloud whose
-- resources have ids.
use sunbeam_migrate.Prelude.{String, ◌≡◌, true, truthy, set?, opt_eq, Option, some, none, List}
use sunbeam_migrate.Config.{Config}
use sunbeam_migrate.Exec.{Error, sdk_conflict, lift, pure, ◌>>=◌}
use sunbeam_migrate.Exec.Returns.{
  Returns, Returns-pure, Returns-raise, Returns-if, Returns-bind, Returns-after, Returns-try_except,
  Returns-if_found,
}
use sunbeam_migrate.Handlers.Interface.{MigratedResource, IsHandler}
use sunbeam_migrate.Handlers.Base.{text_of, get_identity_build_kwargs}
use sunbeam_migrate.Handlers.Sdk.{Object, Kwargs, Clouds, IsCloud}
use sunbeam_migrate.Handlers.Common.{text_attribute, get_or_raise}
use sunbeam_migrate.Handlers.Owner.Lawful.{HasId, found-HasId}
use sunbeam_migrate.Handlers.Neutron.Lawful.Ports.{created-IsId}
use sunbeam_migrate.Handlers.Neutron.SecurityGroup.{
  create_security_group, reuse_default, security_group_perform, security_group_handler,
}
use sunbeam_migrate.Handlers.Neutron.SecurityGroupRule.{
  rule_kwargs, reuse_rule, create_rule, rule_perform, security_group_rule_handler,
}

abbrev IsId : String → Type 0
IsId d = truthy d ≡ true

set-IsId : (o : Option String) → set? o ≡ true → IsId (text_of o)
set-IsId none h = absurd (cc h)
set-IsId (some s) h = h

-- The object, if there is one, has an id.
abbrev FoundId : Option Object → Type 0
FoundId found = (o : Object) → found ≡ some o → HasId o

module _ {W : Type 0} (conf : Config) (clouds : Clouds W)
    (lawful : IsCloud clouds.destination) where
  module _ (rule_id : String → Option String) where
    reuse-IsId : (e : Error) → Returns IsId (reuse_rule conf clouds rule_id e)
    reuse-IsId (sdk_conflict details) =
        Returns-if IsId (set? (rule_id details)) _ _
          (λ named.
            Returns-pure IsId (text_of (rule_id details)) (set-IsId (rule_id details) named))
          (λ _. Returns-raise IsId (sdk_conflict details))
    reuse-IsId e = Returns-raise IsId e

    create_rule-IsId : (kwargs : Kwargs) → Returns IsId (create_rule conf clouds rule_id kwargs)
    unfolding create_rule
    create_rule-IsId kwargs =
        Returns-try_except IsId
          (clouds.destination.create "security-group-rule" kwargs >>= λ created. pure created.id)
          (reuse_rule conf clouds rule_id)
          (created-IsId conf clouds lawful "security-group-rule" kwargs) reuse-IsId

    rule_perform-IsId :
        (i : String) (deps : List MigratedResource)
        → Returns IsId (rule_perform conf clouds rule_id i deps)
    unfolding rule_perform
    rule_perform-IsId i deps =
        Returns-after IsId (get_or_raise clouds.source "security-group-rule" i) _ λ o.
          Returns-after IsId (lift (rule_kwargs conf clouds o deps)) _
            λ kwargs. create_rule-IsId kwargs

    pub security_group_rule_handler-IsHandler :
        IsHandler (security_group_rule_handler conf clouds rule_id)
    unfolding security_group_rule_handler
    security_group_rule_handler-IsHandler = record {
      returns_id = λ self i deps s {d} e. (rule_perform-IsId i deps).holds s.world e;
      database_through_manager = λ R reflexive transitive self keeps i deps s. reflexive s.db;
    }

  reuse_default-FoundId :
      (o : Object) (identity : List (String × String))
      → Returns FoundId (reuse_default conf clouds o identity)
  unfolding reuse_default
  reuse_default-FoundId o identity =
      Returns-if FoundId (opt_eq (text_attribute o "name") (some "default")) _ _
        (λ _. found-HasId clouds.destination lawful "security-group" "default" identity)
        (λ _. Returns-pure FoundId none λ x e. absurd (cc e))

  security_group_perform-IsId :
      (i : String) (deps : List MigratedResource)
      → Returns IsId (security_group_perform conf clouds i deps)
  unfolding security_group_perform create_security_group
  security_group_perform-IsId i deps =
      Returns-after IsId (get_or_raise clouds.source "security-group" i) _ λ o.
        Returns-after IsId
          (lift (
            get_identity_build_kwargs conf "project_id" "user_id" deps
              (text_attribute o "project_id") none))
          _
          λ identity.
            Returns-bind IsId FoundId (reuse_default conf clouds o identity) _
              (reuse_default-FoundId o identity)
              λ existing has.
                Returns-if_found IsId existing _ _
                  (λ found e. Returns-pure IsId found.id (has found e))
                  (created-IsId conf clouds lawful "security-group" _)

  pub security_group_handler-IsHandler : IsHandler (security_group_handler conf clouds)
  unfolding security_group_handler
  security_group_handler-IsHandler = record {
    returns_id = λ self i deps s {d} e. (security_group_perform-IsId i deps).holds s.world e;
    database_through_manager = λ R reflexive transitive self keeps i deps s. reflexive s.db;
  }

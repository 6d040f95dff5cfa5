-- ===== src/Manager/Members.antt =====
-- manager.py: `_migrate_member_resources`.
use sunbeam_migrate.Prelude.{false, Option, none, some, List, [], ◌∷◌, if◌then◌else◌}
use sunbeam_migrate.Exec.{Exec, pure, lift, gets, try_except, ◌>>=◌}
use sunbeam_migrate.Handlers.Interface.{
  Resource, MigratedResource, State, Handler, Request, Perform, on_world,
}
use sunbeam_migrate.Manager.Env.{Env}
use sunbeam_migrate.Manager.Lookup.{latest, settled, get_migrated_resource}

-- The request for a member: all flags passed on.
abbrev pub member_request : Request → Resource → Request
member_request q r = record q {
  resource_type = r.resource_type;
  resource_id = r.source_id;
  dry_run = false;
}

abbrev pub prepend {ℓ} : {A : Type ℓ} → Option A → List A → List A
prepend none xs = xs
prepend (some x) xs = x ∷ xs

module _ {W : Type 0} (env : Env W) (self : Perform W) (q : Request) where
  -- The `try` block for one member.
  unfoldable pub transfer_member : Resource → Exec (State W) (Option MigratedResource)
  unfolding get_migrated_resource
  transfer_member r = do
    m ← self (member_request q r)
    d ← lift (get_migrated_resource m)
    pure (some d)

  -- One member; an error is logged and the member left out.
  unfoldable pub migrate_member : Resource → Exec (State W) (Option MigratedResource)
  unfolding transfer_member
  migrate_member r = try_except (transfer_member r) (λ e. pure none)

  -- The loop over the members: those migrated, or being migrated, are passed over.
  unfoldable pub migrate_members : List Resource → Exec (State W) (List MigratedResource)
  unfolding migrate_member
  migrate_members [] = pure []
  migrate_members (r ∷ rs) =
      let rest = migrate_members rs in
      let migrate = (do d ← migrate_member r; ds ← rest; pure (prepend d ds)) in
      do
        db ← gets (λ s. s.db)
        if settled (latest env r.resource_type r.source_id db) then rest else migrate

  unfoldable pub migrate_member_resources : Handler W → Exec (State W) (List MigratedResource)
  unfolding migrate_members
  migrate_member_resources h = do
    rs ← on_world (h.get_member_resources q.resource_id)
    migrate_members rs

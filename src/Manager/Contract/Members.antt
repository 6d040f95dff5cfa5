-- ===== src/Manager/Contract/Members.antt =====
-- The contract of the member migrations and of their connection to the parent: whatever fails,
-- the table stays sound.
use sunbeam_migrate.Prelude.{some, none, List, [], ◌∷◌}
use sunbeam_migrate.Exec.{pure}
use sunbeam_migrate.Db.Models.{Migration}
use sunbeam_migrate.Db.History.Soundness.{IsSound}
use sunbeam_migrate.Handlers.Interface.{Resource, State, Handler, Request, Perform, on_world}
use sunbeam_migrate.Manager.Env.{Env}
use sunbeam_migrate.Manager.Lookup.{latest, settled, get_migrated_resource}
use sunbeam_migrate.Manager.Members.{
  member_request, prepend, transfer_member, migrate_member, migrate_members,
  migrate_member_resources,
}
use sunbeam_migrate.Manager.Perform.{members_step}
use sunbeam_migrate.Manager.Contract.{
  Grows-refl, Ends, returns, Anything, Ends-from, Ends-if, Ends-bind, Ends-weaken, Ends-try_except,
  Ends-on_world, bind_on_world, bind_lift, bind_track,
}
use sunbeam_migrate.Manager.Contract.Parent.{IsPerform}

module _ {W : Type 0} (env : Env W) (self : Perform W) (keeps : IsPerform self) (q : Request) where
  transfer_member-Ends :
      (r : Resource) (s : State W)
      → IsSound s.db.rows
      → Ends s.db Anything Anything (transfer_member env self q r s)
  unfolding transfer_member
  transfer_member-Ends r s sound =
      Ends-bind s.db _ Anything Anything (self (member_request q r)) _ s
        (keeps (member_request q r) s sound)
        λ m s1 g1 _.
          bind_lift s.db Anything (get_migrated_resource m) (λ d. pure (some d)) s1 g1
            (λ d _. returns (some d) s1 g1 tt)

  migrate_member-Ends :
      (r : Resource) (s : State W)
      → IsSound s.db.rows
      → Ends s.db Anything Anything (migrate_member env self q r s)
  unfolding migrate_member
  migrate_member-Ends r s sound =
      Ends-try_except s.db Anything Anything Anything (transfer_member env self q r) _ s
        (transfer_member-Ends r s sound) (λ c s1 g1 _. returns none s1 g1 tt)

  pub migrate_members-Ends :
      (rs : List Resource) (s : State W)
      → IsSound s.db.rows
      → Ends s.db Anything Anything (migrate_members env self q rs s)
  unfolding migrate_members
  migrate_members-Ends [] s sound = returns [] s (Grows-refl s.db sound) tt
  migrate_members-Ends (r ∷ rs) s sound =
      Ends-if s.db Anything Anything (settled (latest env r.resource_type r.source_id s.db)) _ _ s
        (λ _. migrate_members-Ends rs s sound)
        λ _.
          Ends-bind s.db Anything Anything Anything (migrate_member env self q r) _ s
            (migrate_member-Ends r s sound)
            λ o s1 g1 _.
              bind_track s.db s1.db Anything Anything g1 (migrate_members env self q rs) _ s1
                (migrate_members-Ends rs s1 g1.0) (λ ds s2 g2 _ _. returns (prepend o ds) s2 g2 tt)

  pub members_step-Ends :
      (h : Handler W) (m : Migration) (s : State W)
      → IsSound s.db.rows
      → Ends s.db Anything Anything (members_step env self q h m s)
  unfolding members_step migrate_member_resources
  members_step-Ends h m s sound =
      Ends-bind s.db Anything Anything Anything (migrate_member_resources env self q h) _ s
        (bind_on_world s.db Anything (h.get_member_resources q.resource_id)
          (migrate_members env self q) s (Grows-refl s.db sound)
          (λ rs s1 g1 _.
            Ends-from s.db s1.db Anything Anything g1 _ (migrate_members-Ends rs s1 g1.0)))
        λ ds s2 g2 _.
          Ends-try_except s.db Anything Anything Anything
            (on_world (h.connect_member_resources_to_parent m.destination_id ds)) _ s2
            (Ends-weaken s.db _ _ _ _ (λ a e _ _. tt) (λ c e _ _. tt) _
              (Ends-on_world s.db Anything
                (h.connect_member_resources_to_parent m.destination_id ds) s2 g2 (λ c. tt)))
            (λ c s3 g3 _. returns tt s3 g3 tt)

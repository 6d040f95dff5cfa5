-- ===== src/Handlers/Manila/Mount/Temporary.antt =====
-- A temporary access rule does not outlive the `with` block.
use sunbeam_migrate.Prelude.{String, ◌≡◌, refl}
use sunbeam_migrate.Config.{Config}
use sunbeam_migrate.Exec.{Exec, Result, ok, err, unbound_local, pure, ◌>>◌}
use sunbeam_migrate.Exec.Preserves.{Preserves-pure}
use sunbeam_migrate.Exec.Leaves.{Leaves, Leaves-first, Leaves-try_finally}
use sunbeam_migrate.Handlers.Sdk.{Object, Kwargs, text, end, entry, Cloud}
use sunbeam_migrate.Handlers.Manila.Mount.{Host, use_rule, with_new_rule}

-- The rule that the block asks for: this address and level, on this share.
abbrev pub rule_request : Object → String → String → Kwargs
rule_request share ip level = entry "share" (text share.id) (
    entry "access_to" (text ip)
      (entry "access_type" (text "ip") (entry "access_level" (text level) end)))

-- The state after the deletion of that rule of the share has been asked for.
pub record AskedFor {W : Type 0} (cloud : Cloud W) (share rule : Object) (w : W) : Type 0 where
  pub before : W
  pub asked :
      w ≡ (cloud.act "delete_access_rule" rule.id (entry "share" (text share.id) end) before).1

-- What the whole block does, by the outcome of the creation of the rule.
pub Outcome : {W A : Type 0} → Cloud W → Object → Result Object × W → Result A × W → Type 0
Outcome cloud share (ok rule, w) end_of_block = AskedFor cloud share rule end_of_block.1
Outcome cloud share (err e, w) end_of_block = end_of_block ≡ (err unbound_local, w)

module _ {W A : Type 0} (conf : Config) (host : Host W) (cloud : Cloud W) (share : Object) where
  used :
      (body : Exec W A) (rule : Object)
      → Leaves (AskedFor cloud share rule) (use_rule conf host cloud share body (ok rule))
  unfolding use_rule
  used body rule =
      let delete = cloud.act "delete_access_rule" rule.id (entry "share" (text share.id) end) in
      let first : Leaves (AskedFor cloud share rule) delete = record {
        at_end = λ w. record { before = w; asked = refl };
      } in
      Leaves-try_finally (AskedFor cloud share rule) _ (delete >> pure tt) (
        Leaves-first (AskedFor cloud share rule) delete (λ v. pure tt) first
          (λ v. Preserves-pure tt))

  outcome :
      (body : Exec W A) (x : Result Object × W)
      → Outcome cloud share x (use_rule conf host cloud share body x.0 x.1)
  unfolding use_rule Outcome
  outcome body (ok rule, w) = (used body rule).at_end w
  outcome body (err e, w) = refl

  -- The block asks for a rule with the address and the level; if that rule is created, then however
  -- the body ends, the last thing that is asked of the cloud is the deletion of that very rule of
  -- the share, and if it is not, the body does not run and UnboundLocalError is raised.
  pub with_new_rule-Outcome :
      (ip level : String) (body : Exec W A) (w : W)
      → Outcome cloud share
          (cloud.create "access-rule" (rule_request share ip level) w)
          (with_new_rule conf host cloud share ip level body w)
  unfolding with_new_rule
  with_new_rule-Outcome ip level body w =
      outcome body (cloud.create "access-rule" (rule_request share ip level) w)

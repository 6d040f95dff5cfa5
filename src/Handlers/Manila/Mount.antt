-- ===== src/Handlers/Manila/Mount.antt =====
-- utils/manila_utils.py: the mount of a share, with a temporary access rule. The calls of the
-- operating system are parameters; what runs inside a `with` block is an argument.
pub mod Temporary
use Prim.Native.String.{◌++◌ as str_append}
use Prim.Native.Char.{Char, code}
use sunbeam_migrate.Prelude.{
  String, Bool, true, false, not, ◌&&◌, ◌||◌, ◌==◌, opt_eq, nat_eq, Option, none, some, set?, List,
  [], ◌∷◌, if◌then◌else◌,
}
use sunbeam_migrate.Config.{Config}
use sunbeam_migrate.Exec.{
  Error, Exec, Result, ok, err, not_found, sdk_not_found, unbound_local, runtime_error, pure, raise,
  lift, attempt, try_except, try_finally, ◌>>=◌, ◌>>◌,
}
use sunbeam_migrate.Handlers.Base.{text_of}
use sunbeam_migrate.Handlers.Sdk.{
  Object, text, list, nil, cons, num, end, entry, truth, attribute, Cloud,
}
use sunbeam_migrate.Handlers.Common.{text_attribute}
use sunbeam_migrate.Handlers.Barbican.Url.{is_slash}

-- `socket.gethostbyname`, the addresses after "src" in the output of `ip route get`, `os.makedirs`,
-- `os.rmdir`, `os.urandom` in a name, and `subprocess.check_call`.
pub record Host (W : Type 0) : Type 0 where
  pub gethostbyname : String → Exec W String
  pub route_sources : String → Exec W (List String)
  pub makedirs : String → Exec W (Unit {0})
  pub rmdir : String → Exec W (Unit {0})
  pub random_name : Exec W String
  pub check_call : List String → Exec W (Unit {0})

-- The first of the preferred locations, or else of all.
unfoldable pub preferred : List Object → Option Object
preferred [] = none
preferred (o ∷ os) = if truth (attribute o "is_preferred") then some o else preferred os

abbrev pub export_location : List Object → Result Object
export_location [] = err not_found
export_location (o ∷ os) = elim (preferred (o ∷ os)) [ none ↦ ok o | some p ↦ ok p ]

-- `path.split("/", 1)[0]`
unfoldable pub before_slash : String → String
before_slash String.[] = String.[]
before_slash (String.◌∷◌ c s) =
    let rest = before_slash s in if is_slash c then String.[] else String.◌∷◌ c rest

abbrev pub is_colon : Char → Bool
is_colon c = nat_eq (code c) b':'

unfoldable pub only_colons : String → Bool
only_colons String.[] = true
only_colons (String.◌∷◌ c s) = is_colon c && only_colons s

-- `text.strip(":")`, first on the left and then on the right.
unfoldable pub strip_left : String → String
strip_left String.[] = String.[]
strip_left (String.◌∷◌ c s) = let rest = strip_left s in if is_colon c then rest else String.◌∷◌ c s

unfoldable pub strip_right : String → String
unfolding only_colons
strip_right String.[] = String.[]
strip_right (String.◌∷◌ c s) =
    let rest = strip_right s in if is_colon c && only_colons s then String.[] else String.◌∷◌ c rest

unfoldable pub export_address : String → String
unfolding before_slash strip_left strip_right
export_address path = strip_right (strip_left (before_slash path))

-- A rule that gives the access already.
unfoldable pub has_rule : String → String → List Object → Bool
has_rule ip level [] = false
has_rule ip level (o ∷ os) =
    (opt_eq (text_attribute o "access_to") (some ip)
      && opt_eq (text_attribute o "access_level") (some level)
      && opt_eq (text_attribute o "access_type") (some "ip"))
    || has_rule ip level os

abbrev pub first_source : List String → Result String
first_source [] = err not_found
first_source (ip ∷ ips) = ok ip

-- `except openstack_exc.NotFoundException: pass`
abbrev pub no_rules : {W : Type 0} → Error → Exec W Bool
no_rules sdk_not_found = pure false
no_rules e = raise e

module _ {W : Type 0} (conf : Config) (host : Host W) (cloud : Cloud W) (share : Object) where
  unfoldable pub get_share_export_path : Exec W String
  unfolding preferred
  get_share_export_path = do
    locations ← cloud.list_all "export-location" (("share", share.id) ∷ [])
    o ← lift (export_location locations)
    pure (text_of (text_attribute o "path"))

  -- The address that the share will be used from.
  unfoldable pub access_ip : String → Exec W String
  unfolding export_address
  access_ip path =
      if set? conf.manila_local_access_ip then pure (text_of conf.manila_local_access_ip) else (do
        ip ← host.gethostbyname (export_address path)
        sources ← host.route_sources ip
        lift (first_source sources))

  module _ {A : Type 0} where
    -- The block with its rule, which the `finally` block deletes. If the rule could not be created,
    -- the `finally` block finds no `access_rule`.
    unfoldable pub use_rule : Exec W A → Result Object → Exec W A
    use_rule body (err e) = raise unbound_local
    use_rule body (ok rule) =
        try_finally
          (cloud.act "wait_for_state" rule.id (
              entry "status" (text "active") (
                entry "failures" (list (cons (text "error") nil)) (
                  entry "interval" (num 5)
                    (entry "wait" (num conf.resource_creation_timeout) end))))
            >> body)
          (cloud.act "delete_access_rule" rule.id (entry "share" (text share.id) end) >> pure tt)

    -- The second `try` block, with a rule of its own.
    unfoldable pub with_new_rule : String → String → Exec W A → Exec W A
    unfolding use_rule
    with_new_rule ip level body =
        attempt (
          cloud.create "access-rule" (
            entry "share" (text share.id) (
              entry "access_to" (text ip)
                (entry "access_type" (text "ip") (entry "access_level" (text level) end)))))
        >>= use_rule body

  module _ {A : Type 0} where
    -- The `with` block where the access is there: its own `NotFoundException` reaches the
    -- `except` clause, and the generator, which does not end then, raises `RuntimeError`.
    unfoldable pub with_old_rule : String → String → Exec W A → Exec W A
    unfolding with_new_rule
    with_old_rule ip level body = do
      r ← attempt body
      elim r [
        | ok a ↦ pure a
        | err sdk_not_found ↦ with_new_rule ip level (pure tt) >> raise runtime_error
        | err e ↦ raise e
      ]

    -- `temporary_share_access`
    unfoldable pub with_share_access : String → String → Exec W A → Exec W A
    unfolding access_ip with_new_rule with_old_rule has_rule
    with_share_access path level body = do
      ip ← access_ip path
      found ←
          try_except
            (cloud.list_all "access-rule" (("share", share.id) ∷ []) >>= λ rules.
              pure (has_rule ip level rules))
            no_rules
      if found then with_old_rule ip level body else with_new_rule ip level body

    -- `mounted_nfs_share`
    unfoldable pub with_mounted_share : String → (String → Exec W A) → Exec W A
    unfolding get_share_export_path with_share_access
    with_mounted_share level body = do
      path ← get_share_export_path
      random ← host.random_name
      let mountpoint =
          str_append conf.temporary_migration_dir
            (str_append "/" (str_append share.id (str_append "." random)))
      host.makedirs mountpoint
      with_share_access path level (do
        host.check_call ("sudo" ∷ "mount" ∷ "-v" ∷ "-t" ∷ "nfs" ∷ path ∷ mountpoint ∷ [])
        try_finally (body mountpoint) (do
          host.check_call ("sudo" ∷ "umount" ∷ "-f" ∷ mountpoint ∷ [])
          host.rmdir mountpoint))

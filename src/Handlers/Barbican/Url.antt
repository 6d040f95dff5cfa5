-- ===== src/Handlers/Barbican/Url.antt =====
-- utils/barbican_utils.py, and the keys of a reference to a secret.
pub mod Reference
use Prim.Native.Char.{Char, code}
use Prim.Native.String.{◌++◌ as str_append}
use Prim.Native.String.append
use sunbeam_migrate.Prelude.{
  String, ◌≡◌, refl, Bool, true, false, ◌||◌, ◌==◌, nat_eq, Bool-cases, inl, inr, arith,
  if◌then◌else◌,
}
use sunbeam_migrate.Exec.{Result, ok, err, key_error}
use sunbeam_migrate.Handlers.Sdk.{Value, Entries, end, entry, dict}

abbrev pub is_slash : Char → Bool
is_slash c = nat_eq (code c) b'/'

unfoldable pub has_slash : String → Bool
has_slash String.[] = false
has_slash (String.◌∷◌ c s) = is_slash c || has_slash s

-- `ref_url.split("/")[-1]`
unfoldable pub parse_barbican_url : String → String
unfolding has_slash
parse_barbican_url String.[] = String.[]
parse_barbican_url (String.◌∷◌ c s) =
    let rest = parse_barbican_url s in
    if has_slash s then rest else if is_slash c then s else String.◌∷◌ c s

-- `d[key]` in a dictionary of Python values.
unfoldable pub entry_at : String → Entries → Result Value
entry_at k end = err key_error
entry_at k (entry j v es) = let rest = entry_at k es in if k == j then ok v else rest

abbrev pub value_at : String → Value → Result Value
value_at k (dict es) = entry_at k es
value_at k _ = err key_error

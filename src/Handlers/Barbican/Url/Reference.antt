-- ===== src/Handlers/Barbican/Url/Reference.antt =====
-- The id in a reference to a secret.
use Prim.Native.Char.{Char}
use Prim.Native.String.{◌++◌ as str_append}
use Prim.Native.String.append
use sunbeam_migrate.Prelude.{String, ◌≡◌, refl, true, false, arith}
use sunbeam_migrate.Handlers.Barbican.Url.{has_slash, parse_barbican_url}

append_nil : (t : String) → str_append "" t ≡ t
append_nil t i = append.nil t i

append_cons :
    (c : Char) (s t : String) → str_append (String.◌∷◌ c s) t ≡ String.◌∷◌ c (str_append s t)
append_cons c s t i = append.cons c s t i

slash_id : String → String
slash_id s = str_append "/" s

slash_cons : (s : String) → slash_id s ≡ String.◌∷◌ "/" s
unfolding slash_id
slash_cons s = rw (append_cons "/" "" s) (rw (append_nil s) refl)

has_slash-append : (p s : String) → has_slash (str_append p (slash_id s)) ≡ true
unfolding has_slash
has_slash-append String.[] s = rw (append_nil (slash_id s)) (rw (slash_cons s) refl)
has_slash-append (String.◌∷◌ c p) s =
    let rest = has_slash-append p s in rw (append_cons c p (slash_id s)) (ground arith)

-- A reference is any text, a slash and an id without a slash; the id is what is parsed out of it.
pub parse_barbican_url-reference :
    (p s : String) → has_slash s ≡ false → parse_barbican_url (str_append p (str_append "/" s)) ≡ s
unfolding parse_barbican_url slash_id
parse_barbican_url-reference String.[] s none =
    rw (append_nil (slash_id s)) (rw (slash_cons s) (rw none refl))
parse_barbican_url-reference (String.◌∷◌ c p) s none =
    let rest = parse_barbican_url-reference p s none in
    rw (append_cons c p (slash_id s)) (rw (has_slash-append p s) rest)

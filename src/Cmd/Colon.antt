-- ===== src/Cmd/Colon.antt =====
-- cmd/start.py: a `--filter` option is split at its first colon.
use Prim.Native.Char.{Char}
use Prim.Native.String.{◌++◌ as str_append}
use Prim.Native.String.append
use sunbeam_migrate.Prelude.{String, ◌≡◌, refl, false, some}
use sunbeam_migrate.Cmd.Start.{is_colon, split_colon}

-- No character of the text is a colon.
unfoldable pub NoColon : String → Type 0
NoColon String.[] = Unit
NoColon (String.◌∷◌ c s) = (is_colon c ≡ false) × NoColon s

append_nil : (t : String) → str_append "" t ≡ t
append_nil t i = append.nil t i

append_cons :
    (c : Char) (s t : String) → str_append (String.◌∷◌ c s) t ≡ String.◌∷◌ c (str_append s t)
append_cons c s t i = append.cons c s t i

-- A key without a colon and a value, joined by a colon, are split into the two again, whatever
-- the value holds.
pub split_colon-join :
    (k v : String) → NoColon k → split_colon (str_append k (str_append ":" v)) ≡ some (k, v)
unfolding split_colon NoColon
split_colon-join String.[] v h =
    rw (append_nil (str_append ":" v)) (rw (append_cons ":" "" v) (rw (append_nil v) refl))
split_colon-join (String.◌∷◌ c k) v (hc, hk) =
    rw (append_cons c k (str_append ":" v)) (rw hc (rw (split_colon-join k v hk) refl))

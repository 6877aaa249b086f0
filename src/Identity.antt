-- ===== src/Identity.antt =====
-- src/atlas/identity.py: the test of the identifiers' constructor. The domain is the field that holds
-- the identifier.
use Prim.Native.Char.{code}
use atlas_py.Prelude.{String, Bool, true, ◌&&◌, leb}
use atlas_py.Errors.{Check, validation_error, require}
use atlas_py.Values.{nonempty}

-- `^[\x00-\x7F]+$`, but for the empty text
unfoldable pub is_ascii : String → Bool
is_ascii String.[] = true
is_ascii (String.◌∷◌ c s) = leb (code c) 127 && is_ascii s

-- NominalId.__post_init__
unfoldable pub identifier : String → Check
identifier s =
    require (nonempty s && is_ascii s)
      (validation_error "identifier must be a non-empty opaque ASCII string")

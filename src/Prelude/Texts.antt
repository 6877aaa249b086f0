-- ===== src/Prelude/Texts.antt =====
-- The concatenation of texts, under a name that lists do not use.
use Prim.Native.String.{String, ◌++◌}

infixr 6 ◌<+>◌
abbrev pub ◌<+>◌ : String → String → String
s <+> t = s ++ t

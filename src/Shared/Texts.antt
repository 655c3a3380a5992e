-- ===== src/Shared/Texts.antt =====
-- Texts that are put together, as Python's f-strings and `+` do.
use Prim.Native.String.{String, ◌++◌}
use mathlib.Core.List.{List, [], ◌∷◌}

-- The text of an f-string with these parts.
unfoldable pub joined : List String → String
joined [] = ""
joined (part ∷ parts) = part ++ joined parts

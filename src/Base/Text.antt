-- ===== src/Base/Text.antt =====
-- Texts put together as the f-strings of the source do.
use Prim.Native.String.{String, ◌++◌}
use mathlib.Core.List.{List, [], ◌∷◌}
use mathlib.Core.Option.{Option, none, some}

abbrev pub concat : List String → String
concat [] = ""
concat (s ∷ ss) = s ++ concat ss

-- `str(x)` of an optional text
abbrev pub show_option : Option String → String
show_option none = "None"
show_option (some s) = s

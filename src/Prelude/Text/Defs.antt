-- ===== src/Prelude/Text/Defs.antt =====
-- `startswith`, `partition` and `in` on texts, by recursion on the characters.
use Prim.Native.Char.{Char}
use Prim.Native.String.{String, [], ◌∷◌}
use mathlib.Core.Bool.{Bool, ◌||◌}
use mathlib.Core.Option.{Option, none, some}
use python_yamp.Prelude.Tests.{if◌then◌else◌, is_some}
use python_yamp.Prelude.Classes.{◌==◌, char_eq}

-- s[len(p):] where s starts with p
unfoldable pub strip_prefix : String → String → Option String
strip_prefix [] s = some s
strip_prefix (d ∷ p) [] = none
strip_prefix (d ∷ p) (c ∷ s) = if c == d then strip_prefix p s else none

-- s.startswith(p)
abbrev pub starts_with : String → String → Bool
starts_with s p = is_some (strip_prefix p s)

abbrev pub cons_first : Char → Option (String × String) → Option (String × String)
cons_first c none = none
cons_first c (some (a, b)) = some (c ∷ a, b)

abbrev pub first_cut : Option String → Char → Option (String × String) → Option (String × String)
first_cut none c later = cons_first c later
first_cut (some rest) c later = some ([], rest)

-- s.partition(p) for a separator that is not empty: the parts before and after its first
-- occurrence, or `none` where Python's second component is ""
unfoldable pub partition : String → String → Option (String × String)
partition p [] = none
partition p (c ∷ s) = first_cut (strip_prefix p (c ∷ s)) c (partition p s)

-- p in s
unfoldable pub contains : String → String → Bool
contains p [] = starts_with [] p
contains p (c ∷ s) = starts_with (c ∷ s) p || contains p s

-- ===== src/Common/Paths.antt =====
-- path/filepath on Unix: a directory or file is the components of its path, the innermost first, from the
-- root or the working directory. 47 is '/'.
use mathlib.Core.List.{List, [], ◌∷◌}
use mathlib.Core.Bool.{◌||◌}
use herd.Common.Tests.{if◌then◌else◌}
use herd.Common.Text.{Text, codes, text_eq, is_empty}
use herd.Common.Split.{split}

-- A component of a path, as `filepath.Clean` takes it.
unfoldable pub enter : List Text → Text → List Text
enter dir p =
    if is_empty p || text_eq (codes ".") p
    then dir
    else if text_eq (codes "..") p
    then elim dir [ [] ↦ [] | d ∷ ds ↦ ds ]
    else p ∷ dir

unfoldable pub walk : List Text → List Text → List Text
walk dir [] = dir
walk dir (p ∷ ps) = walk (enter dir p) ps

-- `filepath.Join` of an absolute path and a text.
unfoldable pub join : List Text → Text → List Text
join dir t = walk dir (split 47 t)

-- `filepath.Dir` of an absolute path.
abbrev pub parent : List Text → List Text
parent [] = []
parent (d ∷ ds) = ds

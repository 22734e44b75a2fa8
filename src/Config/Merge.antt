-- ===== src/Config/Merge.antt =====
-- What stands under a key after the merge.
use Prim.Native.String.{String}
use text.Mathlib.Text.{◌==◌ as str_eq}
-- The user's settings for one key, in their order, over the default for it.
use load_balancer.Prelude.{refl, some, [], ◌∷◌, Option, ◌≡◌, if◌then◌else◌, ◌∙◌, ap}
use load_balancer.Config.{update_section, Setting, Option, lookup, merged, insert}
use load_balancer.Prelude.Dict.{Dict, lookup, insert, lookup-insert}

pub over : String → Dict Setting → Option Setting → Option Setting
over k [] before = before
over k ((j, v) ∷ user) before = over k user (if str_eq j k then some (merged before v) else before)

-- The same for the entries of a section, where the last one counts.
pub last_of : String → Dict String → Option String → Option String
last_of k [] before = before
last_of k ((j, v) ∷ entries) before = last_of k entries (if str_eq j k then some v else before)

-- A section that stands in the defaults and in the user's settings keeps the entries that only the
-- defaults have, and takes the user's last value for each of the others.
pub lookup-update_section :
    (k : String) (old new : Dict String)
    → lookup k (update_section old new) ≡ last_of k new (lookup k old)
unfolding update_section last_of
lookup-update_section k old [] = refl
lookup-update_section k old ((j, v) ∷ new) =
    lookup-update_section k (insert j v old) new ∙ ap (last_of k new) (lookup-insert j k v old)

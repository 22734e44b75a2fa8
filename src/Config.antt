-- ===== src/Config.antt =====
-- demo/proxy.py, `_load_config`: the settings of a file over the defaults. What reading the file gives
-- is an input; a value that is no section is kept as its text.
pub mod Merge
use Prim.Native.String.{String}
use load_balancer.Prelude.{some, none, [], ◌∷◌, Option, refl, true, false, zero, suc, inl, inr}
use load_balancer.Prelude.Dict.{lookup, Dict, insert}

pub data Setting : Type 0 where
  section : Dict String → Setting
  value : String → Setting

-- `defaults[k].update(v)`
unfoldable pub update_section : Dict String → Dict String → Dict String
unfolding insert
update_section old [] = old
update_section old ((k, v) ∷ entries) = update_section (insert k v old) entries

-- What stands under a key after the user's setting for it.
unfoldable pub merged : Option Setting → Setting → Setting
unfolding update_section
merged (some (section old)) (section new) = section (update_section old new)
merged _ setting = setting

-- The deep merge of the user's settings over the defaults.
unfoldable pub merge : Dict Setting → Dict Setting → Dict Setting
unfolding merged lookup insert
merge defaults [] = defaults
merge defaults ((k, v) ∷ user) = merge (insert k (merged (lookup k defaults) v) defaults) user

-- What `yaml.safe_load` comes to: no PyYAML, with what the JSON file holds if there is one; another
-- exception; or settings, none where the file is empty.
pub data Loaded : Type 0 where
  no_yaml : Option (Dict Setting) → Loaded
  unreadable : Loaded
  settings : Option (Dict Setting) → Loaded

-- `_load_config`, where `file` is what stands at the path, if anything.
unfoldable pub load_config : Dict Setting → Option Loaded → Dict Setting
unfolding merge
load_config defaults none = defaults
load_config defaults (some (no_yaml none)) = defaults
load_config defaults (some (no_yaml (some user))) = merge defaults user
load_config defaults (some unreadable) = defaults
load_config defaults (some (settings none)) = defaults
load_config defaults (some (settings (some user))) = merge defaults user

-- ===== src/Config/File.antt =====
-- config/config.go, LoadConfigOverrideFile and NewConfigFromFile. The parsers of YAML and JSON and
-- os.ReadFile are arguments.
use webfs.Base.{◌+◌, ◌&&◌, ◌||◌, Option, none, some, [], ◌∷◌, map, nat_beq, leb, if◌then◌else◌}
use webfs.Base.Maps.{Text, text_beq}
use webfs.Base.Result.{Result, err, unknown_extension, ◌>>=◌}
use webfs.Paths.{codes}
use webfs.Config.{Config, ConfigOverride, or_keep, new_config}

-- filepath.Ext: from the last dot of the last element of the path
ext_from : Text → Option Text
ext_from [] = none
ext_from (c ∷ s) = elim (ext_from s) [
  | some e ↦ some e
  | none ↦ if nat_beq c b'.' then some (c ∷ s) else none
]

after_slash : Text → Option Text
after_slash [] = none
after_slash (c ∷ s) = elim (after_slash s) [
  | some t ↦ some t
  | none ↦ if nat_beq c b'/' then some s else none
]

unfoldable pub ext : Text → Text
unfolding ext_from after_slash
ext path = or_keep (ext_from (or_keep (after_slash path) path)) []

unfoldable pub to_lower : Text → Text
to_lower = map λ c. if leb b'A' c && leb c b'Z' then c + 32 else c

module _ {F : Type 0} (read_file : Text → Result Text)
    (unmarshal_yaml unmarshal_json : Text → Result (ConfigOverride F)) where
  by_extension : Text → Text → Text → Result (ConfigOverride F)
  by_extension path extension bytes =
      if text_beq extension (codes ".yaml") || text_beq extension (codes ".yml")
      then unmarshal_yaml bytes
      else if text_beq extension (codes ".json")
      then unmarshal_json bytes
      else err (unknown_extension path)

  -- LoadConfigOverrideFile
  unfoldable pub load_config_override_file : Text → Result (ConfigOverride F)
  unfolding by_extension
  load_config_override_file path = read_file path >>= by_extension path (to_lower (ext path))

  -- NewConfigFromFile
  unfoldable pub new_config_from_file : F → Text → Result (Config F)
  unfolding load_config_override_file new_config
  new_config_from_file one path = load_config_override_file path >>= λ o. new_config one (some o)

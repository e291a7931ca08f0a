-- ===== src/Config.antt =====
-- config/config.go, the log levels of internal/util/logger.go, and the part of cmd/wfs/main.go that
-- turns the verbosity flag into a configuration. `F` stands for float64: the code only copies such
-- values, and `one` is its constant 1.0.
pub mod Levels
pub mod Merge
pub mod File
use Prim.Native.Nat.{min, max}
use webfs.Base.{
  ℕ, suc, ◌+◌, ◌-◌, ◌*◌, ◌/◌, ◌^◌, Bool, true, false, ◌&&◌, ◌||◌, Option, none, some, List, [], ◌∷◌,
  map, get_elem?, nat_beq, leb, if◌then◌else◌,
}
use webfs.Base.Int.{ℤ, pos, negsuc, ◌-ℤ◌, leb_ℤ, ltb_ℤ, wrap64}
use webfs.Base.Maps.{Text, text_beq}
use webfs.Base.Result.{Result, Error, ok, err, panics, unknown_extension, ◌>>=◌}
use webfs.Paths.{codes}

-- internal/util/logger.go
abbrev pub trace_level : ℤ
trace_level = pos 0

abbrev pub debug_level : ℤ
debug_level = pos 1

abbrev pub info_level : ℤ
info_level = pos 2

abbrev pub warn_level : ℤ
warn_level = pos 3

abbrev pub error_level : ℤ
error_level = pos 4

-- MountOptions and Config
pub record Config (F : Type 0) : Type 0 where
  pub fs_name : Text
  pub name : Text
  pub chunk_size : ℤ
  pub cache_max_size : ℤ
  pub max_prefetch_ahead : ℤ
  pub prefetch_batch_size : ℤ
  pub log_lvl : ℤ
  pub max_fh : ℤ
  pub max_write : ℤ
  pub attr_timeout : F
  pub entry_timeout : F
  pub direct_io : Bool

-- ConfigOverride: `none` is a nil pointer
pub record ConfigOverride (F : Type 0) : Type 0 where
  pub chunk_size : Option ℤ
  pub cache_max_size : Option ℤ
  pub max_prefetch_ahead : Option ℤ
  pub prefetch_batch_size : Option ℤ
  pub max_fh : Option ℤ
  pub max_write : Option ℤ
  pub attr_timeout : Option F
  pub entry_timeout : Option F
  pub direct_io : Option Bool
  pub log_lvl : Option ℤ
  pub fs_name : Option Text
  pub name : Option Text

abbrev pub mb : ℕ
mb = 1024 * 1024

-- The default values; those of type float64 are the constant 1.0.
abbrev pub default_max_fh : ℕ
default_max_fh = 2 ^ 31 - 1

abbrev pub default_chunk_size : ℕ
default_chunk_size = 1 * mb

abbrev pub default_cache_max_size : ℕ
default_cache_max_size = 200 * mb

abbrev pub default_max_prefetch_ahead : ℕ
default_max_prefetch_ahead = 100 * mb

abbrev pub default_prefetch_batch_size : ℕ
default_prefetch_batch_size = 3

abbrev pub default_max_write : ℕ
default_max_write = 1 * mb

abbrev pub default_direct_io : Bool
default_direct_io = true

abbrev pub default_log_lvl : ℤ
default_log_lvl = info_level

abbrev pub default_fs_name : Text
default_fs_name = codes "webfs"

abbrev pub default_name : Text
default_name = codes "webfs"

-- The ends of the scale of verbosities
abbrev pub error_verbose : ℕ
error_verbose = 1

abbrev pub trace_verbose : ℕ
trace_verbose = 5

-- The array logLvls and its index expression.
abbrev pub log_lvls : List ℤ
log_lvls = error_level ∷ warn_level ∷ info_level ∷ debug_level ∷ trace_level ∷ []

unfoldable pub at_index : List ℤ → ℤ → Result ℤ
at_index xs (pos i) = elim (get_elem? xs i) [ none ↦ panics | some x ↦ ok x ]
at_index xs (negsuc i) = panics

-- min(max(v, ErrorVerbose), TraceVerbose)
unfoldable pub clamp_verbose : ℤ → ℤ
clamp_verbose (pos v) = pos (min (max v error_verbose) trace_verbose)
clamp_verbose (negsuc v) = pos error_verbose

-- The level for a verbosity of 1 (error) to 5 (trace)
unfoldable pub level_of_verbose : ℤ → Result ℤ
unfolding at_index clamp_verbose
level_of_verbose v = at_index log_lvls (clamp_verbose v -ℤ pos 1)

-- cmd/wfs/main.go: the level for the verbosity flag
unfoldable pub clamp_flag : ℤ → ℤ
clamp_flag v =
    let v1 = if ltb_ℤ v (pos 1) then pos 1 else v in if ltb_ℤ (pos 5) v1 then pos 5 else v1

unfoldable pub flag_level : ℤ → Result ℤ
unfolding at_index clamp_flag
flag_level v = at_index log_lvls (clamp_flag v -ℤ pos 1)

abbrev pub or_keep {ℓ} : {A : Type ℓ} → Option A → A → A
or_keep none old = old
or_keep (some new) old = new

override_level : Option ℤ → ℤ → Result ℤ
override_level none old = ok old
override_level (some v) old = level_of_verbose v

-- Go's int division, which rounds towards zero
abbrev pub div_ℤ : ℤ → ℤ → ℤ
div_ℤ (pos a) (pos b) = pos (a / b)
div_ℤ (pos a) (negsuc b) = pos 0 -ℤ pos (a / suc b)
div_ℤ (negsuc a) (pos b) = pos 0 -ℤ pos (suc a / b)
div_ℤ (negsuc a) (negsuc b) = pos (suc a / suc b)

abbrev is_zero : ℤ → Bool
is_zero z = leb_ℤ z (pos 0) && leb_ℤ (pos 0) z

module _ {F : Type 0} where
  -- merge, with an override that is not nil
  merge_fields : Config F → ConfigOverride F → ℤ → Config F
  merge_fields c o level = record {
    fs_name = or_keep o.fs_name c.fs_name;
    name = or_keep o.name c.name;
    chunk_size = or_keep o.chunk_size c.chunk_size;
    cache_max_size = or_keep o.cache_max_size c.cache_max_size;
    max_prefetch_ahead = or_keep o.max_prefetch_ahead c.max_prefetch_ahead;
    prefetch_batch_size = or_keep o.prefetch_batch_size c.prefetch_batch_size;
    log_lvl = level;
    max_fh = or_keep o.max_fh c.max_fh;
    max_write = or_keep o.max_write c.max_write;
    attr_timeout = or_keep o.attr_timeout c.attr_timeout;
    entry_timeout = or_keep o.entry_timeout c.entry_timeout;
    direct_io = or_keep o.direct_io c.direct_io;
  }

  -- merge
  unfoldable pub merge : Config F → Option (ConfigOverride F) → Result (Config F)
  unfolding merge_fields override_level
  merge c none = ok c
  merge c (some o) = override_level o.log_lvl c.log_lvl >>= λ level. ok (merge_fields c o level)

  abbrev pub default_config : F → Config F
  default_config one = record {
    fs_name = default_fs_name;
    name = default_name;
    chunk_size = pos default_chunk_size;
    cache_max_size = pos default_cache_max_size;
    max_prefetch_ahead = pos default_max_prefetch_ahead;
    prefetch_batch_size = pos default_prefetch_batch_size;
    log_lvl = default_log_lvl;
    max_fh = pos default_max_fh;
    max_write = pos default_max_write;
    attr_timeout = one;
    entry_timeout = one;
    direct_io = default_direct_io;
  }

  -- NewConfig
  unfoldable pub new_config : F → Option (ConfigOverride F) → Result (Config F)
  unfolding merge
  new_config one o = merge (default_config one) o

  abbrev pub only_level : ℤ → ConfigOverride F
  only_level v = record {
    chunk_size = none;
    cache_max_size = none;
    max_prefetch_ahead = none;
    prefetch_batch_size = none;
    max_fh = none;
    max_write = none;
    attr_timeout = none;
    entry_timeout = none;
    direct_io = none;
    log_lvl = some v;
    fs_name = none;
    name = none;
  }

  -- cmd/wfs/main.go: the flag's level goes into the override.
  unfoldable pub main_config : F → ℤ → Result (Config F)
  unfolding new_config flag_level
  main_config one verbose =
      flag_level verbose >>= λ log_lvl. new_config one (some (only_level log_lvl))

  -- NumCacheChunks
  unfoldable pub num_cache_chunks : Config F → ℤ
  num_cache_chunks c =
      if is_zero c.chunk_size then pos 0 else wrap64 (div_ℤ c.cache_max_size c.chunk_size)

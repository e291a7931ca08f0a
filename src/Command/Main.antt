-- ===== src/Command/Main.antt =====
-- cmd/wfs/main.go, the function main: its flags are a record, and what it calls outside of the
-- repository is the record `Outside`. The wait for a debugger and all messages are left out.
pub mod Course
pub mod Unmounting
use webfs.Base.{ℕ, Bool, Option, none, some, List, [], ◌∷◌, if◌then◌else◌}
use webfs.Base.Int.{ℤ}
use webfs.Base.Maps.{Text}
use webfs.Base.Result.{Result, Error, ok, err, panics}
use webfs.External.{Env}
use webfs.Node.{FileSystem}
use webfs.Config.{Config, flag_level, only_level, new_config}
use webfs.Logger.{Zerolog, initialize_logger}
use webfs.Adapters.{Registry, new_registry, register_builtins}
use webfs.Requests.{Decoder}
use webfs.Fuse.{FuseRaw, new_fuse_raw}
use webfs.Server
use webfs.Server.{FuseLibrary, WebFs, serve, unmount}
use webfs.Command.{Loaded, load_nodes}

-- The flags after flag.Parse; `mount_point` is flag.Arg(0), empty if there is none.
pub record Flags : Type 0 where
  pub verbose : ℤ
  pub nodes : Text
  pub umount : Bool
  pub mount_point : Text

pub record Outside (W : Type 0) : Type 0 where
  pub library : FuseLibrary W
  -- Run of `fusermount -u`, whose error is ignored
  pub fusermount : Text → W → W
  -- os.ReadFile, and what json.Unmarshal leaves in a slice of raw messages
  pub read_file : Text → Result Text
  pub raw_nodes : Text → List Text
  -- From a successful Serve to the signal: what the calls of the FUSE library and the goroutines
  -- make of the state; `none` if one of them panics, which ends the process.
  pub await_signal : FuseRaw → W → Option FuseRaw × W

-- How the process ends. logger.Fatal exits; an error of Unmount is only logged.
pub data Exit : Type 0 where
  no_mount_point crashed : Exit
  fatal : Error → Exit
  unmounted : Option Error → Exit

-- The end of the process: the logger's state if it was set up, and the state behind the mount at
-- the signal.
pub record Ended : Type 0 where
  pub exit : Exit
  pub logger : Option Zerolog
  pub served : Option FuseRaw

abbrev pub early : Zerolog → Exit → Ended
early log exit = record { exit = exit; logger = some log; served = none }

module _ {F : Type 0} (one : F) (env : Env) (decoder : Decoder env.World)
    (outside : Outside env.World) (http : ℕ) where
  open env use {World}

  exit_of : Result (Unit {0}) → Exit
  exit_of (ok _) = unmounted none
  exit_of (err e) = unmounted (some e)
  exit_of panics = crashed

  -- The signal handling at the end of main
  after_signal : Zerolog → WebFs F → Option FuseRaw × World → Ended × World
  unfolding exit_of
  after_signal log fs (some raw, w) =
      let (r, w') = unmount outside.library (record fs { fs = raw.fs }) w in
      (record { exit = exit_of r; logger = some log; served = some raw }, w')
  after_signal log fs (none, w) = (early log crashed, w)

  after_serve : Zerolog → Result (Unit {0}) × WebFs F × World → Ended × World
  unfolding after_signal
  after_serve log (ok _, fs, w) = after_signal log fs (outside.await_signal (new_fuse_raw fs.fs) w)
  after_serve log (err e, fs, w) = (early log (fatal e), w)
  after_serve log (panics, fs, w) = (early log crashed, w)

  after_load : Flags → Zerolog → WebFs F → Loaded env → Ended × World
  unfolding after_serve
  after_load flags log fs (ok added, s, w) =
      after_serve log (serve outside.library flags.mount_point (record fs { fs = s }) w)
  after_load flags log fs (err e, s, w) = (early log (fatal e), w)
  after_load flags log fs (panics, s, w) = (early log crashed, w)

  with_config : Flags → Zerolog → Registry → Result (Config F) → World → Ended × World
  unfolding after_load
  with_config flags log registry (ok cfg) w =
      let (fs, w1) = Server.new env cfg registry w in
      after_load flags log fs
        (load_nodes env decoder registry outside.read_file outside.raw_nodes flags.nodes fs.fs w1)
  with_config flags log registry (err e) w = (early log (fatal e), w)
  with_config flags log registry panics w = (early log crashed, w)

  -- From the test of the mount point on
  with_mount_point : Flags → ℤ → Text → World → Ended × World
  unfolding with_config
  with_mount_point flags level [] w = (early (initialize_logger level) no_mount_point, w)
  with_mount_point flags level (c ∷ mnt) w =
      let w1 = if flags.umount then outside.fusermount (c ∷ mnt) w else w in
      with_config flags (initialize_logger level) (register_builtins http [] new_registry)
        (new_config one (some (only_level level))) w1

  with_level : Flags → Result ℤ → World → Ended × World
  unfolding with_mount_point
  with_level flags (ok level) w = with_mount_point flags level flags.mount_point w
  with_level flags (err e) w = (record { exit = fatal e; logger = none; served = none }, w)
  with_level flags panics w = (record { exit = crashed; logger = none; served = none }, w)

  -- main
  unfoldable pub main : Flags → World → Ended × World
  unfolding with_level
  main flags w = with_level flags (flag_level flags.verbose) w

-- ===== src/Server.antt =====
-- server/webfs.go, WebFS. The FUSE library's server is an argument: fuse.NewServer, WaitMount and
-- Unmount of a server.
pub mod Mounting
use webfs.Base.{ℕ, Bool, Option, none, some, ◌&&◌, List, [], ◌∷◌}
use webfs.Base.Int.{ℤ, leb_ℤ}
use webfs.Base.Maps.{Text}
use webfs.Base.Result.{Result, Error, ok, err, panics}
use webfs.Paths.{codes}
use webfs.External.{Env}
use webfs.Node.{FileSystem}
use webfs.Fs.{new_fs}
use webfs.Fuse.{FuseRaw, new_fuse_raw}
use webfs.Config.{Config, trace_level}
use webfs.Adapters.{Registry}
use webfs.Logger.{same_level}

-- The fields of fuse.MountOptions that Serve sets; the logger is left out.
pub record MountOptions : Type 0 where
  pub name : Text
  pub fs_name : Text
  pub debug : Bool

-- The FUSE library. A server is a reference.
pub record FuseLibrary (W : Type 0) : Type 0 where
  pub new_server : FuseRaw → Text → MountOptions → W → Result ℕ × W
  pub wait_mount : ℕ → W → Result (Unit {0}) × W
  pub unmount : ℕ → W → Result (Unit {0}) × W

pub record WebFs (F : Type 0) : Type 0 where
  pub fs : FileSystem
  pub cfg : Config F
  -- `none` is nil
  pub server : Option ℕ
  pub registry : Registry

-- What can be received from ServeAsync's channel until it is closed: the error that Serve
-- returned, `none` for nil. A panic of the goroutine ends the process.
received : Result (Unit {0}) → Result (List (Option Error))
received (ok _) = ok (none ∷ [])
received (err e) = ok (some e ∷ [])
received panics = panics

module _ {F : Type 0} where
  -- New
  unfoldable pub new : (env : Env) → Config F → Registry → env.World → WebFs F × env.World
  new env cfg registry w =
      let (s, w') = new_fs env w in
      (record { fs = s; cfg = cfg; server = none; registry = registry }, w')

  -- The mount options that Serve passes on
  unfoldable pub mount_options : Config F → MountOptions
  mount_options cfg = record {
    name = cfg.name;
    fs_name = cfg.fs_name;
    debug = same_level cfg.log_lvl trace_level;
  }

  module _ {W : Type 0} (library : FuseLibrary W) where
    unfoldable pub wait_for : WebFs F → Result ℕ × W → Result (Unit {0}) × WebFs F × W
    wait_for fs (ok srv, w) =
        let (r, w') = library.wait_mount srv w in (r, record fs { server = some srv }, w')
    wait_for fs (err e, w) = (err e, fs, w)
    wait_for fs (panics, w) = (panics, fs, w)

    -- Serve; `go srv.Serve()` runs the handlers of webfs.Fuse from here on.
    unfoldable pub serve : Text → WebFs F → W → Result (Unit {0}) × WebFs F × W
    unfolding wait_for
    serve mount_point fs w =
        wait_for fs (library.new_server (new_fuse_raw fs.fs) mount_point (mount_options fs.cfg) w)

    -- ServeAsync, when its goroutine has ended
    unfoldable serve_async : Text → WebFs F → W → Result (List (Option Error)) × WebFs F × W
    unfolding received
    serve_async mount_point fs w =
        let (r, fs', w') = serve mount_point fs w in (received r, fs', w')

    -- Unmount
    unfoldable pub unmount : WebFs F → W → Result (Unit {0}) × W
    unmount fs w = elim fs.server [ none ↦ (ok tt, w) | some srv ↦ library.unmount srv w ]

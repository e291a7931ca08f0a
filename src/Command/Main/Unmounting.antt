-- ===== src/Command/Main/Unmounting.antt =====
-- When main of cmd/wfs/main.go serves until the signal and unmounts.
use webfs.Base.{ℕ, ◌≡◌, refl, ap, Option, none, some, [], ◌∷◌, if◌then◌else◌}
use webfs.Base.Maps.{Text}
use webfs.Base.Result.{Result, ok, err, panics, >>=-eq-ok, ok-injective}
use webfs.External.{Env}
use webfs.Config.{flag_level, main_config}
use webfs.Config.Levels.{main_never_traces}
use webfs.Logger.{Zerolog, initialize_logger}
use webfs.Adapters.{new_registry, register_builtins}
use webfs.Requests.{Decoder}
use webfs.Fuse.{FuseRaw, new_fuse_raw}
use webfs.Server
use webfs.Server.{WebFs, MountOptions, mount_options, wait_for, serve, unmount}
use webfs.Command.{Added, Loaded, nothing_added, load_nodes}
use webfs.Command.Main.{
  Flags, Outside, unmounted, Ended, exit_of, after_signal, after_serve, after_load, with_config,
  with_mount_point, with_level, main,
}

module _ {F : Type 0} (one : F) (env : Env) (decoder : Decoder env.World)
    (outside : Outside env.World) (http : ℕ) where
  open env use {World}

  -- The process ended by an unmount without an error; at the signal it served, and the last thing
  -- that it did was to unmount the server.
  abbrev pub Unmounts : ℕ → Ended × World → Type 0
  Unmounts srv o =
      (o.0.exit ≡ unmounted none)
      × (r : FuseRaw) × (raw : FuseRaw) × (v : World) × (signal : World) × (o.0.served ≡ some raw)
      × (outside.await_signal r v ≡ (some raw, signal))
      × ((outside.library.unmount srv signal).1 ≡ o.1)

  module _ (srv : ℕ)
      (makes : (raw : FuseRaw) (path : Text) (options : MountOptions) (v : World)
        → (outside.library.new_server raw path options v).0 ≡ ok srv)
      (mounts : (v : World) → (outside.library.wait_mount srv v).0 ≡ ok tt)
      (lives : (r : FuseRaw) (v : World)
        → (raw : FuseRaw) × ((outside.await_signal r v).0 ≡ some raw))
      (unmounts : (v : World) → (outside.library.unmount srv v).0 ≡ ok tt) where
    after_signal-Unmounts :
        (log : Zerolog) (fs : WebFs F) (r raw : FuseRaw) (v : World) (o : Option FuseRaw × World)
        → fs.server ≡ some srv
        → outside.await_signal r v ≡ o
        → o.0 ≡ some raw
        → Unmounts srv (after_signal one env decoder outside http log fs o)
    unfolding after_signal unmount
    after_signal-Unmounts log fs r raw v (some raw', w) set came e =
        rw set (
          (ap (exit_of one env decoder outside http) (unmounts w)),
          r,
          raw',
          v,
          w,
          refl,
          came,
          refl,
        )
    after_signal-Unmounts log fs r raw v (none, w) set came e = absurd (cc e)

    after_serve-Unmounts :
        (log : Zerolog) (o : Result (Unit {0}) × WebFs F × World)
        → o.0 ≡ ok tt
        → o.1.server ≡ some srv
        → Unmounts srv (after_serve one env decoder outside http log o)
    unfolding after_serve
    after_serve-Unmounts log (ok u, fs, w) h set =
        let (raw, came) = lives (new_fuse_raw fs.fs) w in
        after_signal-Unmounts log fs (new_fuse_raw fs.fs) raw w _ set refl came
    after_serve-Unmounts log (err x, fs, w) h set = absurd (cc h)
    after_serve-Unmounts log (panics, fs, w) h set = absurd (cc h)

    served :
        (fs : WebFs F) (o : Result ℕ × World)
        → o.0 ≡ ok srv
        → ((wait_for outside.library fs o).0 ≡ ok tt)
          × ((wait_for outside.library fs o).1.server ≡ some srv)
    unfolding wait_for
    served fs (ok k, w) h = let same : k ≡ srv = ok-injective h in rw same ((mounts w, refl))
    served fs (err x, w) h = absurd (cc h)
    served fs (panics, w) h = absurd (cc h)

    after_load-Unmounts :
        (flags : Flags) (log : Zerolog) (fs : WebFs F) (o : Loaded env) (n : Added)
        → o.0 ≡ ok n
        → Unmounts srv (after_load one env decoder outside http flags log fs o)
    unfolding after_load serve
    after_load-Unmounts flags log fs (ok added, s, w) n h =
        let (waited, set) =
          served (record fs { fs = s }) _
            (makes (new_fuse_raw s) flags.mount_point (mount_options fs.cfg) w) in
        after_serve-Unmounts log _ waited set
    after_load-Unmounts flags log fs (err x, s, w) n h = absurd (cc h)
    after_load-Unmounts flags log fs (panics, s, w) n h = absurd (cc h)

    -- With a mount point and without a nodes file, if the FUSE library makes a server, mounts it and
    -- unmounts it, and no call panics before the signal: whatever the verbosity, the process serves
    -- until the signal; what it does then is to unmount that server, and it ends by an unmount
    -- without an error.
    pub main-Unmounts :
        (flags : Flags) (c : ℕ) (mnt : Text) (w : World)
        → flags.mount_point ≡ c ∷ mnt
        → flags.nodes ≡ []
        → Unmounts srv (main one env decoder outside http flags w)
    unfolding main main_config with_config load_nodes
    main-Unmounts flags c mnt w given no_nodes =
        let (cfg, made, _) = main_never_traces one flags.verbose in
        let (level, e, configured) = >>=-eq-ok (flag_level flags.verbose) _ made in
        rw (e, with_level, given, with_mount_point, configured, with_config)
          (let w1 = if flags.umount then outside.fusermount (c ∷ mnt) w else w in
            let registry = register_builtins http [] new_registry in
            let (fs, w2) = Server.new env cfg registry w1 in
            let loaded =
              load_nodes env decoder registry outside.read_file outside.raw_nodes flags.nodes fs.fs
                w2 in
            after_load-Unmounts flags (initialize_logger level) fs loaded (nothing_added env)
              (rw (no_nodes, load_nodes) refl))

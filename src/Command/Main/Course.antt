-- ===== src/Command/Main/Course.antt =====
-- The course of main of cmd/wfs/main.go: when it serves, on what, and how it ends.
use webfs.Base.{ℕ, ◌≡◌, ◌≢◌, refl, ap, subst, Option, none, some, List, [], ◌∷◌}
use webfs.Base.Int.{ℤ}
use webfs.Base.Maps.{Map, Text}
use mathlib.Core.Option.{some-injective}
use webfs.Base.Result.{Result, Error, ok, err, panics}
use webfs.External.{Env}
use webfs.Inode.Attributes.{SetsTimes}
use webfs.Session.Sound.{IsSoundFs, new_fs-IsSoundFs, Grows-IsSoundFs}
use webfs.Config.{Config, flag_level, only_level, new_config}
use webfs.Config.Levels.{flag_level-level_of_verbose, level_of_verbose_lem}
use webfs.Logger.{Zerolog, initialize_logger}
use webfs.Adapters.{Registry, new_registry, register_builtins}
use webfs.Requests.{Decoder}
use webfs.Fuse.{FuseRaw, new_fuse_raw}
use webfs.Fuse.Invariant.{IsSound}
use webfs.System.{Steps}
use webfs.System.Safety.{RangesOver, Steps-IsSound, new_fuse_raw-IsSound}
use webfs.Server
use webfs.Server.{WebFs, MountOptions, mount_options, wait_for, serve, unmount}
use webfs.Command.{Loaded}
use webfs.Command.Loading.{load_nodes-IsLoaded}
use webfs.Command.Main.{
  Flags, Outside, Exit, no_mount_point, crashed, unmounted, Ended, exit_of, after_signal,
  after_serve, after_load, with_config, with_mount_point, with_level, main,
}

-- The exit that says how Unmount went
abbrev pub ExitFor : Result (Unit {0}) → Exit → Type 0
ExitFor (ok _) e = e ≡ unmounted none
ExitFor (err x) e = e ≡ unmounted (some x)
ExitFor panics e = e ≡ crashed

module _ {W : Type 0} (outside : Outside W) (mount_point : Text) where
  -- The process served a sound state until the signal: NewServer returned a server for it at the
  -- mount point, WaitMount of that server succeeded, and then came the signal. At last that server
  -- was unmounted, and the process ended as Unmount went.
  pub record Served (raw : FuseRaw) (e : Ended) (last : W) : Type 0 where
    pub start : FuseRaw
    pub options : MountOptions
    pub before : W
    pub srv : ℕ
    pub start_sound : IsSound start
    pub made : (outside.library.new_server start mount_point options before).0 ≡ ok srv
    pub mounted :
        (outside.library.wait_mount srv
          (outside.library.new_server start mount_point options before).1).0
        ≡ ok tt
    pub signal : W
    pub signalled :
        outside.await_signal start
          (outside.library.wait_mount srv
            (outside.library.new_server start mount_point options before).1).1
        ≡ (some raw, signal)
    pub exit_for : ExitFor (outside.library.unmount srv signal).0 e.exit
    pub last_eq : (outside.library.unmount srv signal).1 ≡ last

  -- If the process served, it did so as Served says, and the state at the signal was sound; if it
  -- did not, it does not end by an unmount.
  pub record EndsWell (o : Ended × W) : Type 0 where
    pub sound : (raw : FuseRaw) → o.0.served ≡ some raw → IsSound raw
    pub served : (raw : FuseRaw) → o.0.served ≡ some raw → Served raw o.0 o.1
    pub served_first : (x : Option Error) → o.0.served ≡ none → o.0.exit ≢ unmounted x

  ended_early :
      (o : Ended × W)
      → o.0.served ≡ none
      → ((x : Option Error) → o.0.exit ≢ unmounted x)
      → EndsWell o
  ended_early o none_served other = record {
    sound = λ raw h. absurd (cc (none_served, h));
    served = λ raw h. absurd (cc (none_served, h));
    served_first = λ x h. other x;
  }

module _ {F : Type 0} (one : F) (env : Env) (decoder : Decoder env.World)
    (outside : Outside env.World) (http : ℕ) where
  open env use {World}

  exit_of-ExitFor : (r : Result (Unit {0})) → ExitFor r (exit_of one env decoder outside http r)
  unfolding exit_of
  exit_of-ExitFor (ok u) = refl
  exit_of-ExitFor (err x) = refl
  exit_of-ExitFor panics = refl

  module _ (range : Map Text ℕ → List ℕ) (sets : SetsTimes env) (ranged : RangesOver range)
      (calls : (r raw : FuseRaw) (w : World)
        → (outside.await_signal r w).0 ≡ some raw
        → Steps env range r w raw (outside.await_signal r w).1)
      (flags : Flags) where
    abbrev Well : Ended × World → Type 0
    Well = EndsWell outside flags.mount_point

    module _ (log : Zerolog) (fs : WebFs F) (w : World) (h : IsSoundFs fs.fs) where
      abbrev start : FuseRaw
      start = new_fuse_raw fs.fs

      abbrev made : Result ℕ × World
      made =
          outside.library.new_server (new_fuse_raw fs.fs) flags.mount_point (mount_options fs.cfg) w

      abbrev with_server : ℕ → WebFs F
      with_server srv = record fs { server = some srv }

      signalled-EndsWell :
          (srv : ℕ) (o : Option FuseRaw × World)
          → made.0 ≡ ok srv
          → (outside.library.wait_mount srv made.1).0 ≡ ok tt
          → outside.await_signal start (outside.library.wait_mount srv made.1).1 ≡ o
          → Well (after_signal one env decoder outside http log (with_server srv) o)
      unfolding after_signal unmount
      signalled-EndsWell srv (some raw, w') m waited e =
          let o = after_signal one env decoder outside http log (with_server srv) (some raw, w') in
          let sound : IsSound raw =
            Steps-IsSound sets ranged (calls start raw _ (ap (λ x. x.0) e))
              (new_fuse_raw-IsSound fs.fs h) in
          record {
            sound = λ raw' same. subst IsSound (some-injective raw raw' same) sound;
            served = λ raw' same.
                subst (λ x. Served outside flags.mount_point x o.0 o.1)
                  (some-injective raw raw' same)
                  (record {
                    start = start;
                    options = mount_options fs.cfg;
                    before = w;
                    srv = srv;
                    start_sound = new_fuse_raw-IsSound fs.fs h;
                    made = m;
                    mounted = waited;
                    signal = w';
                    signalled = e;
                    exit_for = exit_of-ExitFor (outside.library.unmount srv w').0;
                    last_eq = refl;
                  });
            served_first = λ x none_served. absurd (cc none_served);
          }
      signalled-EndsWell srv (none, w') m waited e =
          ended_early outside flags.mount_point _ refl (λ y same. cc same)

      waited-EndsWell :
          (srv : ℕ) (r : Result (Unit {0}))
          → made.0 ≡ ok srv
          → (outside.library.wait_mount srv made.1).0 ≡ r
          → Well (
              after_serve one env decoder outside http log
                (r, with_server srv, (outside.library.wait_mount srv made.1).1))
      unfolding after_serve
      waited-EndsWell srv (ok u) m e = signalled-EndsWell srv _ m e refl
      waited-EndsWell srv (err x) m e =
          ended_early outside flags.mount_point _ refl (λ y same. cc same)
      waited-EndsWell srv panics m e =
          ended_early outside flags.mount_point _ refl (λ y same. cc same)

      made-EndsWell :
          (r : Result ℕ)
          → made.0 ≡ r
          → Well (
              after_serve one env decoder outside http log
                (wait_for outside.library fs (r, made.1)))
      unfolding wait_for after_serve
      made-EndsWell (ok srv) m = waited-EndsWell srv _ m refl
      made-EndsWell (err x) m = ended_early outside flags.mount_point _ refl (λ y same. cc same)
      made-EndsWell panics m = ended_early outside flags.mount_point _ refl (λ y same. cc same)

    after_load-EndsWell :
        (log : Zerolog) (fs : WebFs F) (o : Loaded env)
        → IsSoundFs o.1
        → Well (after_load one env decoder outside http flags log fs o)
    unfolding after_load serve
    after_load-EndsWell log fs (ok added, s, w) h =
        made-EndsWell log (record fs { fs = s }) w h _ refl
    after_load-EndsWell log fs (err x, s, w) h =
        ended_early outside flags.mount_point _ refl (λ y e. cc e)
    after_load-EndsWell log fs (panics, s, w) h =
        ended_early outside flags.mount_point _ refl (λ y e. cc e)

    with_config-EndsWell :
        (log : Zerolog) (registry : Registry) (o : Result (Config F)) (w : World)
        → Well (with_config one env decoder outside http flags log registry o w)
    unfolding with_config Server.new
    with_config-EndsWell log registry (ok cfg) w =
        let (fs, w1) = Server.new env cfg registry w in
        let start = new_fs-IsSoundFs env w in
        let l =
          load_nodes-IsLoaded env decoder registry outside.read_file outside.raw_nodes flags.nodes
            fs.fs w1 start.tree in
        after_load-EndsWell log fs _ (Grows-IsSoundFs fs.fs _ l.grows l.tree start)
    with_config-EndsWell log registry (err x) w =
        ended_early outside flags.mount_point _ refl (λ y e. cc e)
    with_config-EndsWell log registry panics w =
        ended_early outside flags.mount_point _ refl (λ y e. cc e)

    with_mount_point-EndsWell :
        (level : ℤ) (mnt : Text) (w : World)
        → Well (with_mount_point one env decoder outside http flags level mnt w)
    unfolding with_mount_point
    with_mount_point-EndsWell level [] w =
        ended_early outside flags.mount_point _ refl (λ y e. cc e)
    with_mount_point-EndsWell level (c ∷ mnt) w =
        with_config-EndsWell (initialize_logger level) (register_builtins http [] new_registry)
          (new_config one (some (only_level level))) _

    with_level-EndsWell :
        (o : Result ℤ) (w : World) → Well (with_level one env decoder outside http flags o w)
    unfolding with_level
    with_level-EndsWell (ok level) w = with_mount_point-EndsWell level flags.mount_point w
    with_level-EndsWell (err x) w = ended_early outside flags.mount_point _ refl (λ y e. cc e)
    with_level-EndsWell panics w = ended_early outside flags.mount_point _ refl (λ y e. cc e)

    -- Whatever the flags, the nodes file, the mount and the adapters give: if the process served
    -- until a signal, then NewServer had returned a server for a sound state at the mount point of
    -- the flags, and WaitMount of it had succeeded; the state at the signal was sound; and then
    -- that server was unmounted, and the process ended with the outcome of this. If it did not
    -- serve until a signal, it does not end by an unmount. While it serves, the calls of the FUSE
    -- library and the goroutines are steps of the running file system, unless one panics; SetTimes
    -- keeps the inode number, and ranging over a map yields its values.
    pub main-EndsWell :
        (w : World) → EndsWell outside flags.mount_point (main one env decoder outside http flags w)
    unfolding main
    main-EndsWell w = with_level-EndsWell (flag_level flags.verbose) w

module _ {F : Type 0} (one : F) (env : Env) (decoder : Decoder env.World)
    (outside : Outside env.World) (http : ℕ) where
  open env use {World}

  -- Without a mount point the process ends with that error, whatever the verbosity, and before it
  -- calls anything outside.
  pub main_no_mount_point :
      (flags : Flags) (w : World)
      → flags.mount_point ≡ []
      → let (e, w') = main one env decoder outside http flags w in
        (e.exit ≡ no_mount_point) × (e.served ≡ none) × (w' ≡ w)
  unfolding main
  main_no_mount_point flags w missing =
      let (n, _, _, level) = level_of_verbose_lem flags.verbose in
      rw (flag_level-level_of_verbose flags.verbose, level, with_level, missing, with_mount_point)
        ((refl, refl, refl))

-- ===== src/Server/Mounting.antt =====
-- Mounting and unmounting, and what the command's configuration makes of the mount options.
use webfs.Base.{ℕ, ◌≡◌, ◌≢◌, refl, ap, false, none, some, [], ◌∷◌, arith}
use webfs.Base.Int.{ℤ, pos, negsuc}
use webfs.Base.Maps.{Text}
use webfs.Base.Result.{Result, Error, ok, err, panics}
use webfs.Config.{Config, trace_level, main_config}
use webfs.Config.Levels.{main_never_traces}
use webfs.Fuse.{new_fuse_raw}
use webfs.Logger.{same_level}
use webfs.Server.{
  FuseLibrary, WebFs, mount_options, wait_for, serve, received, serve_async, unmount,
}

-- What Serve returned and left, by what NewServer returned.
abbrev pub Mounted :
    {F W : Type 0}
    → FuseLibrary W
    → WebFs F
    → Result ℕ × W
    → Result (Unit {0}) × WebFs F × W
    → Type 0
Mounted {W} library fs (made, w1) (r, fs', w') =
    (fs'.fs ≡ fs.fs)
    × ((srv : ℕ)
        → made ≡ ok srv
        → (r ≡ (library.wait_mount srv w1).0)
          × ((v : W) → unmount library fs' v ≡ library.unmount srv v))
    × ((e : Error)
        → made ≡ err e
        → fs.server ≡ none
        → (r ≡ err e) × ((v : W) → unmount library fs' v ≡ (ok tt, v)))

wait_for-Mounted :
    {F W : Type 0} (library : FuseLibrary W) (fs : WebFs F) (made : Result ℕ × W)
    → Mounted library fs made (wait_for library fs made)
unfolding wait_for unmount
wait_for-Mounted library fs (ok srv, w) = (
  refl,
  (λ k e. let same : srv ≡ k = cc e in rw same ((refl, λ v. refl))),
  (λ x e. absurd (cc e)),
)
wait_for-Mounted library fs (err x, w) =
    (refl, (λ k e. absurd (cc e)), (λ y e unset. ((cc e), λ v. rw unset)))
wait_for-Mounted library fs (panics, w) = (refl, (λ k e. absurd (cc e)), (λ x e. absurd (cc e)))

-- Serve keeps the file system. If NewServer returns a server, Serve returns what WaitMount does,
-- and Unmount afterwards unmounts that server, also when WaitMount failed. If NewServer fails and
-- there was no server before, Serve returns its error, and Unmount afterwards does nothing.
pub serve-Mounted :
    {F W : Type 0} (library : FuseLibrary W) (mount_point : Text) (fs : WebFs F) (w : W)
    → Mounted library fs
        (library.new_server (new_fuse_raw fs.fs) mount_point (mount_options fs.cfg) w)
        (serve library mount_point fs w)
unfolding serve
serve-Mounted library mount_point fs w = wait_for-Mounted library fs _

-- ServeAsync's channel yields one value and is closed, unless Serve panics: nil when Serve
-- succeeds, else its error. What Serve leaves is the same.
serve_async-serve :
    {F W : Type 0} (library : FuseLibrary W) (mount_point : Text) (fs : WebFs F) (w : W)
    → let (r, fs', w') = serve library mount_point fs w in
      ((r ≡ ok tt) → serve_async library mount_point fs w ≡ (ok (none ∷ []), fs', w'))
      × ((e : Error)
          → r ≡ err e
          → serve_async library mount_point fs w ≡ (ok (some e ∷ []), fs', w'))
unfolding serve_async received
serve_async-serve library mount_point fs w =
    ((λ h. rw (h, received) refl), λ e h. rw (h, received) refl)

same_level-trace_level : (a : ℤ) → a ≢ trace_level → same_level a trace_level ≡ false
same_level-trace_level (pos n) h = let other : n ≢ 0 = λ e. h (ap pos e) in ground arith
same_level-trace_level (negsuc n) h = ground arith

-- Whatever verbosity is given on the command line, Serve mounts without FUSE debugging.
pub mount_options-main_config :
    {F : Type 0} (one : F) (v : ℤ)
    → (c : Config F) × (main_config one v ≡ ok c) × ((mount_options c).debug ≡ false)
unfolding mount_options
mount_options-main_config one v =
    let (c, made, e) = main_never_traces one v in (c, made, same_level-trace_level c.log_lvl e)

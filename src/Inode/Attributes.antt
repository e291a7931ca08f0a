-- ===== src/Inode/Attributes.antt =====
-- What reads and refreshes leave of an inode's attributes.
use webfs.Base.{ℕ, ◌≡◌, refl, Option, none, some, List, ◌∙◌}
use webfs.Base.Int.{ℤ, pos, negsuc}
use webfs.Base.Result.{Result, ok, err, panics}
use webfs.External.{Env, Attr, Time, FileMetadata, background}
use webfs.Pool.{AdapterPool}
use webfs.Pool.Captured.{try_operation-keeps}
use webfs.Inode.{
  Inode, keep_read, after_fetch, fetch, after_lookup, read_with, read, after_meta, set_meta,
  meta_operation, refresh_meta_with, refresh_meta,
}

-- SetTimes writes the times of the attributes only: in particular it keeps the inode number.
abbrev pub SetsTimes : Env → Type 0
SetsTimes env =
    (atime mtime ctime : Option Time) (attr : Attr)
    → (env.set_times atime mtime ctime attr).ino ≡ attr.ino

module _ (env : Env) where
  open env use {World}

  attr-keep_read :
      (offset : ℤ) (n : Inode) (r : Result (List ℕ)) → (keep_read env offset n r).1.attr ≡ n.attr
  unfolding keep_read
  attr-keep_read offset n (ok bytes) = refl
  attr-keep_read offset n (err e) = refl
  attr-keep_read offset n panics = refl

  attr-after_fetch :
      (offset : ℤ) (n : Inode) (o : Result (Unit {0}) × AdapterPool × (ℤ × List ℕ) × World)
      → (after_fetch env offset n o).1.attr ≡ n.attr
  unfolding after_fetch
  attr-after_fetch offset n (ok u, pool, (count, buf), w) =
      attr-keep_read offset (record n { adapter_pool = some pool }) _
  attr-after_fetch offset n (err e, pool, captured, w) = refl
  attr-after_fetch offset n (panics, pool, captured, w) = refl

  attr-fetch :
      (pool : AdapterPool) (offset size : ℤ) (n : Inode) (w : World)
      → (fetch env pool offset size n w).1.attr ≡ n.attr
  unfolding fetch
  attr-fetch pool offset (negsuc size) n w = refl
  attr-fetch pool offset (pos size) n w = attr-after_fetch offset n _

  attr-after_lookup :
      (pool : AdapterPool) (offset size : ℤ) (n : Inode) (w : World)
      (found : Result (Option (List ℕ)))
      → (after_lookup env pool offset size n w found).1.attr ≡ n.attr
  unfolding after_lookup
  attr-after_lookup pool offset size n w (ok (some cached)) = refl
  attr-after_lookup pool offset size n w (ok none) = attr-fetch pool offset size n w
  attr-after_lookup pool offset size n w (err e) = refl
  attr-after_lookup pool offset size n w panics = refl

  attr-read_with :
      (o : Option AdapterPool) (offset size : ℤ) (n : Inode) (w : World)
      → (read_with env o offset size n w).1.attr ≡ n.attr
  unfolding read_with
  attr-read_with none offset size n w = refl
  attr-read_with (some pool) offset size n w = attr-after_lookup pool offset size n w _

  -- Read leaves the attributes as they were, whatever it returns.
  pub attr-read :
      (offset size : ℤ) (n : Inode) (w : World) → (read env offset size n w).1.attr ≡ n.attr
  unfolding read
  attr-read offset size n w = attr-read_with n.adapter_pool offset size n w

module _ (env : Env) (sets : SetsTimes env) where
  open env use {World}

  ino-after_meta :
      (ino : ℕ) (attr : Attr) (o : Result FileMetadata × World)
      → attr.ino ≡ ino
      → (after_meta env attr o).1.ino ≡ ino
  unfolding after_meta set_meta
  ino-after_meta ino attr (ok meta, w) h = sets none meta.last_modified none _ ∙ h
  ino-after_meta ino attr (err e, w) h = h
  ino-after_meta ino attr (panics, w) h = h

  ino-refresh_meta_with :
      (o : Option AdapterPool) (n : Inode) (w : World)
      → (refresh_meta_with env o n w).1.attr.ino ≡ n.attr.ino
  unfolding refresh_meta_with meta_operation
  ino-refresh_meta_with none n w = refl
  ino-refresh_meta_with (some pool) n w =
      try_operation-keeps (background env) (meta_operation env) (λ (a : Attr). a.ino ≡ n.attr.ino)
        (λ a attr w h. ino-after_meta n.attr.ino attr _ h) pool n.attr w refl

  -- RefreshMeta keeps the inode's number, whatever the adapters report.
  pub ino-refresh_meta : (n : Inode) (w : World) → (refresh_meta env n w).1.attr.ino ≡ n.attr.ino
  unfolding refresh_meta
  ino-refresh_meta n w = ino-refresh_meta_with n.adapter_pool n w

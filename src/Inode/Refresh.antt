-- ===== src/Inode/Refresh.antt =====
-- RefreshMeta of an inode that serves a file.
use mathlib.Core.Option.{some-injective}
use webfs.Base.{ℕ, true, ◌≡◌, refl, sym, ap, subst, ◌∙◌, Option, none, some, List, All}
use webfs.External.{Env, FileMetadata, background}
use webfs.Base.Result.{ok}
use webfs.Pool.{AdapterPool, mark_usable, mark_healthy}
use webfs.Pool.Availability.{primary_first}
use webfs.Pool.Failover.{refs, members, refs-try_operation}
use webfs.Inode.{Inode, set_meta, after_meta, meta_operation, refresh_meta_with, refresh_meta}
use webfs.Inode.Reads.{Serves, IsServing}

module _ (env : Env) (file : List ℕ) (n : Inode) (w : env.World) where
  -- What a refresh leaves as it was.
  abbrev pub IsRefreshed : Inode → Type 0
  IsRefreshed n' = IsServing env file n' × (n'.data_cache ≡ n.data_cache) × (n'.h_links ≡ n.h_links)

  refresh_meta_with-IsRefreshed :
      (o : Option AdapterPool)
      → n.adapter_pool ≡ o
      → IsServing env file n
      → IsRefreshed (refresh_meta_with env o n w).1
  unfolding refresh_meta_with
  refresh_meta_with-IsRefreshed none e h = (h, refl, refl)
  refresh_meta_with-IsRefreshed (some pool) e h = (
    record {
      coherent = h.coherent;
      serving = λ p found.
          subst (λ l. All (Serves env file) l)
            (sym (refs-try_operation (background env) (meta_operation env) pool n.attr w)
              ∙ ap (λ (q : AdapterPool). refs (members q)) (some-injective _ p found))
            (h.serving pool e);
    },
    refl,
    refl,
  )

  -- RefreshMeta on an inode that stands for a file leaves one that stands for the file, with the
  -- same cache and the same hard links, whatever metadata the adapters report and whichever fail.
  pub refresh_meta-IsRefreshed : IsServing env file n → IsRefreshed (refresh_meta env n w).1
  unfolding refresh_meta
  refresh_meta-IsRefreshed h = refresh_meta_with-IsRefreshed n.adapter_pool refl h

-- With a healthy primary that reports metadata, RefreshMeta asks no other member: it sets the size
-- and the time from what the primary reports.
pub refresh_meta_primary :
    (env : Env) (n : Inode) (pool : AdapterPool) (w w' : env.World) (meta : FileMetadata)
    → n.adapter_pool ≡ some pool
    → pool.primary.is_healthy ≡ true
    → env.get_meta pool.primary.adapter (mark_usable (background env) pool.backups w).1
      ≡ (ok meta, w')
    → refresh_meta env n w ≡ (
      ok tt,
      record n {
        attr = set_meta env meta n.attr;
        adapter_pool = some (record pool { primary = mark_healthy pool.primary });
      },
      w',
    )
unfolding refresh_meta
refresh_meta_primary env n pool w w' meta has healthy reported =
    let called : meta_operation env pool.primary.adapter n.attr
          (mark_usable (background env) pool.backups w).1
        ≡ (ok tt, set_meta env meta n.attr, w') =
      unfold meta_operation in rw (reported, after_meta) in
    let first =
      primary_first (background env) (meta_operation env) (λ v. refl) pool n.attr _ w w' healthy
        called in
    rw (has, refresh_meta_with, first)

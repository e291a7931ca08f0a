-- ===== src/Inode/Interleaved/Alone.antt =====
-- A single reader, against Inode.Read as one step.
use webfs.Base.{ℕ, ◌≡◌, refl, sym, subst, Option, none, some, List}
use webfs.Base.Int.{ℤ, pos, negsuc}
use webfs.Base.Result.{Result, ok, err, panics}
use webfs.External.{Env}
use webfs.Cache.{slice}
use webfs.Pool.{AdapterPool}
use webfs.Inode.{Inode, keep_read, after_fetch, fetch, after_lookup, read_with, read}
use webfs.Inode.Interleaved.{
  Reader, asking, answered, looked_up, sliced, look, took, take_from, advance, alone,
}

module _ (env : Env) where
  open env use {World}

  abbrev pub returning : Result (List ℕ) × Inode × World → Inode × World × Reader
  returning (r, n, w) = (n, w, answered r)

  alone-sliced :
      (offset : ℤ) (n : Inode) (w : World) (r : Result (List ℕ))
      → alone env 1 n w (sliced offset r)
        ≡ (let (r', n') = keep_read env offset n r in (n', w, answered r'))
  unfolding alone advance sliced keep_read
  alone-sliced offset n w (ok bytes) = refl
  alone-sliced offset n w (err e) = refl
  alone-sliced offset n w panics = refl

  alone-took :
      (offset : ℤ) (n : Inode) (o : Result (Unit {0}) × AdapterPool × (ℤ × List ℕ) × World)
      → (let (n', w', c) = took env offset n o in alone env 1 n' w' c)
        ≡ returning (after_fetch env offset n o)
  unfolding alone advance took after_fetch
  alone-took offset n (ok u, pool, (count, buf), w) =
      alone-sliced offset (record n { adapter_pool = some pool }) w (slice buf (pos 0) count)
  alone-took offset n (err e, pool, captured, w) = refl
  alone-took offset n (panics, pool, captured, w) = refl

  alone-missed :
      (pool : AdapterPool) (offset size : ℤ) (n : Inode) (w : World)
      → (let (n', w', c) = take_from env offset size (some pool) n w in alone env 1 n' w' c)
        ≡ returning (fetch env pool offset size n w)
  unfolding take_from fetch alone advance
  alone-missed pool offset (negsuc size) n w = refl
  alone-missed pool offset (pos size) n w = alone-took offset n _

  alone-looked_up :
      (pool : AdapterPool) (offset size : ℤ) (n : Inode) (w : World) (r : Result (Option (List ℕ)))
      → n.adapter_pool ≡ some pool
      → alone env 2 n w (looked_up offset size r)
        ≡ returning (after_lookup env pool offset size n w r)
  unfolding alone advance looked_up after_lookup
  alone-looked_up pool offset size n w (ok (some cached)) e = refl
  alone-looked_up pool offset size n w (ok none) e =
      subst
        (λ o.
          (let (n', w', c) = take_from env offset size o n w in alone env 1 n' w' c)
          ≡ returning (fetch env pool offset size n w))
        (sym e) (alone-missed pool offset size n w)
  alone-looked_up pool offset size n w (err x) e = refl
  alone-looked_up pool offset size n w panics e = refl

  alone-look :
      (o : Option AdapterPool) (offset size : ℤ) (n : Inode) (w : World)
      → n.adapter_pool ≡ o
      → alone env 2 n w (look env offset size o n) ≡ returning (read_with env o offset size n w)
  unfolding look read_with alone advance
  alone-look none offset size n w e = refl
  alone-look (some pool) offset size n w e = alone-looked_up pool offset size n w _ e

  -- A reader that is alone returns in three steps what Inode.Read returns in one, and leaves the
  -- same inode, whatever the request, the cache and the adapters are.
  pub alone-read :
      (offset size : ℤ) (n : Inode) (w : World)
      → alone env 3 n w (asking offset size) ≡ returning (read env offset size n w)
  unfolding alone advance read
  alone-read offset size n w = alone-look n.adapter_pool offset size n w refl

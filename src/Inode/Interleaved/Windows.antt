-- ===== src/Inode/Interleaved/Windows.antt =====
-- What interleaved readers of one inode return.
use webfs.Base.{
  ℕ, ◌+◌, ◌<◌, ◌^◌, ◌≡◌, refl, sym, subst, inl, inr, Option, none, some, List, length, replicate,
  arith, All, nat_beq, Bool-cases,
}
use webfs.Base.Int.{ℤ, pos}
use webfs.Base.Result.{Result, ok, err, panics}
use webfs.External.{Env}
use webfs.Cache.Coherence.{window, Answers, get-coherent}
use webfs.Pool.{AdapterPool}
use webfs.Pool.Failover.{refs, members, refs-try_operation}
use webfs.Inode.Reads
use webfs.Inode.{Inode}
use webfs.Inode.Reads.{
  Serves, KeepsBuffer, IsServing, Filled, slice_front, window-IsCoherent, with_pool,
}
use webfs.Inode.Interleaved.{
  Reader, asking, missed, fetched, answered, looked_up, sliced, look, took, take_from, advance,
  Readers, Interleaved, begun, moved,
}

module _ (env : Env) (file : List ℕ) (keeps : KeepsBuffer env) (small : length file < 2 ^ 63) where
  open env use {World}

  -- What a reader of the window at `offset` of `size` bytes holds.
  unfoldable pub Holds : ℕ → ℕ → Reader → Type 0
  Holds offset size (asking o s) = (o ≡ pos offset) × (s ≡ pos size)
  Holds offset size (missed o s) = (o ≡ pos offset) × (s ≡ pos size)
  Holds offset size (fetched o bytes) = (o ≡ pos offset) × (bytes ≡ window file offset size)
  Holds offset size (answered (ok bytes)) = bytes ≡ window file offset size
  Holds offset size (answered (err e)) = Unit
  Holds offset size (answered panics) = Unit

  module _ (offset size : ℕ) (fits : offset + size < 2 ^ 63) where
    looked_up-Holds :
        (r : Result (Option (List ℕ)))
        → Answers file offset size r
        → Holds offset size (looked_up (pos offset) (pos size) r)
    unfolding Holds looked_up
    looked_up-Holds r (inl miss) = rw (miss, looked_up) ((refl, refl))
    looked_up-Holds r (inr (hit, _)) = rw (hit, looked_up)

    look-Holds :
        (o : Option AdapterPool) (n : Inode)
        → IsServing env file n
        → Holds offset size (look env (pos offset) (pos size) o n)
    unfolding Holds look
    look-Holds none n h = tt
    look-Holds (some pool) n h =
        looked_up-Holds _ (get-coherent file n.data_cache offset size small fits h.coherent)

    took-Holds :
        (n : Inode) (r : Result (Unit {0})) (pool : AdapterPool) (s : ℤ × List ℕ) (w : World)
        → IsServing env file n
        → All (Serves env file) (refs (members pool))
        → (r ≡ ok tt → Filled env file keeps offset size s)
        → let (n', _, c) = took env (pos offset) n (r, pool, s, w) in
          IsServing env file n' × Holds offset size c
    unfolding Holds took sliced
    took-Holds n (ok u) pool s w h serves filled =
        let (c, count, room, front) = filled refl in
        let cut = slice_front env file keeps offset size s.1 c room in
        (
          with_pool env file keeps offset size small fits n pool h serves,
          (rw (count, cut, sliced) ((refl, front))),
        )
    took-Holds n (err e) pool s w h serves filled =
        (with_pool env file keeps offset size small fits n pool h serves, tt)
    took-Holds n panics pool s w h serves filled =
        (with_pool env file keeps offset size small fits n pool h serves, tt)

    take_from-Holds :
        (o : Option AdapterPool) (n : Inode) (w : World)
        → n.adapter_pool ≡ o
        → IsServing env file n
        → let (n', _, c) = take_from env (pos offset) (pos size) o n w in
          IsServing env file n' × Holds offset size c
    unfolding Holds take_from
    take_from-Holds none n w e h = (h, tt)
    take_from-Holds (some pool) n w e h =
        took-Holds n _ _ _ _ h
          (subst (All (Serves env file))
            (sym (refs-try_operation env _ pool (pos 0, replicate size 0) w)) (h.serving pool e))
          (Reads.fetched env file keeps offset size pool w fits (h.serving pool e))

    advance-Holds :
        (c : Reader) (n : Inode) (w : World)
        → Holds offset size c
        → IsServing env file n
        → let (n', _, c') = advance env n w c in IsServing env file n' × Holds offset size c'
    unfolding Holds advance
    advance-Holds (asking o s) n w (o_eq, s_eq) h =
        rw (o_eq, s_eq) ((h, look-Holds n.adapter_pool n h))
    advance-Holds (missed o s) n w (o_eq, s_eq) h =
        rw (o_eq, s_eq) (take_from-Holds n.adapter_pool n w refl h)
    advance-Holds (fetched o bytes) n w (o_eq, e) h = rw o_eq (
        (
          record {
            coherent =
                window-IsCoherent env file keeps offset size small fits n.data_cache bytes e
                  h.coherent;
            serving = h.serving;
          },
          e,
        ))
    advance-Holds (answered r) n w held h = (h, held)

  AllHold : (ℕ → ℕ × ℕ) → Readers env → Type 0
  AllHold wanted r =
      IsServing env file r.inode × ((i : ℕ) → Holds (wanted i).0 (wanted i).1 (r.readers i))

  Interleaved-AllHold :
      {wanted : ℕ → ℕ × ℕ} {n : Inode} {w : World} {r : Readers env}
      → ((i : ℕ) → (wanted i).0 + (wanted i).1 < 2 ^ 63)
      → IsServing env file n
      → Interleaved env wanted n w r
      → AllHold wanted r
  unfolding Holds AllHold
  Interleaved-AllHold fits h begun = (h, λ i. (refl, refl))
  Interleaved-AllHold {wanted} fits h (moved i {r} before) =
      let (serving, held) = Interleaved-AllHold fits h before in
      let (serving', own) =
        advance-Holds (wanted i).0 (wanted i).1 (fits i) (r.readers i) r.inode r.world (held i)
          serving in
      (
        serving',
        λ j. elim (Bool-cases (nat_beq i j)) [
          | inl same ↦
              let ij : i ≡ j = ground arith in
              rw same (
                subst
                  (λ k.
                    Holds (wanted k).0 (wanted k).1 (advance env r.inode r.world (r.readers i)).2)
                  ij own)
          | inr other ↦ rw other (held j)
        ],
      )

  -- Let readers of one inode, whose cache and adapters stand for a file of fewer than 2^63 bytes,
  -- ask for ranges that end below 2^63, and let their looks into the cache, their fetches and their
  -- stores be interleaved in any way. Then the inode stands for the file at every moment, and a
  -- reader that has returned bytes has returned exactly the window that it asked for.
  pub Interleaved-windows :
      {wanted : ℕ → ℕ × ℕ} {n : Inode} {w : World} {r : Readers env}
      → ((i : ℕ) → (wanted i).0 + (wanted i).1 < 2 ^ 63)
      → IsServing env file n
      → Interleaved env wanted n w r
      → IsServing env file r.inode
        × ((i : ℕ) (bytes : List ℕ)
            → r.readers i ≡ answered (ok bytes)
            → bytes ≡ window file (wanted i).0 (wanted i).1)
  unfolding Holds AllHold
  Interleaved-windows {wanted} fits h run =
      let (serving, held) = Interleaved-AllHold fits h run in
      (serving, λ i bytes e. subst (λ c. Holds (wanted i).0 (wanted i).1 c) e (held i))

-- ===== src/Examples/Reads.antt =====
-- An inode with two adapters, of which the first fails.
use webfs.Base.{ℕ, ◌≡◌, refl, inl, inr, some, List, [], ◌∷◌, arith, nat_beq, if◌then◌else◌, All}
use webfs.Base.Int.{pos}
use webfs.Base.Result.{ok}
use webfs.Cache
use webfs.External.{Attr}
use webfs.Pool.{
  AdapterPool, new_member, try_operation, usable, mark_usable, try_each, last_resort, after_attempt,
}
use webfs.Pool.Retry.{IsSane}
use webfs.Pool.Failover.{members, refs, try_operation-members}
use webfs.Pool.Availability.{try_operation_available}
use webfs.Inode.{Inode, refresh_meta, read_operation, read}
use webfs.Inode.Reads.{Serves, IsServing, IsCorrect, read-IsCorrect}
use webfs.Inode.Refresh.{IsRefreshed, refresh_meta-IsRefreshed}
use webfs.Inode.Progress.{read_again}
use webfs.Cache.Coherence.{window}
use webfs.Inode.Interleaved.{Readers, asking, answered, Interleaved, begun, moved, move}
use webfs.Inode.Interleaved.Windows.{Interleaved-windows}
use webfs.Examples.Server.{served_file, server, server-KeepsBuffer, server-calm, server-Serves}

abbrev plain_attr : Attr
plain_attr = record {
  ino = 7;
  size = 5;
  atime = 0;
  mtime = 0;
  ctime = 0;
  atimensec = 0;
  mtimensec = 0;
  ctimensec = 0;
  mode = 0o100444;
  nlink = 1;
  uid = 1000;
  gid = 1000;
  rdev = 0;
  blksize = 4096;
  padding = 0;
}

abbrev pub two_members : AdapterPool
two_members = record { primary = new_member 9; backups = new_member 7 ∷ []; retry_delay = 30 }

abbrev one_member : AdapterPool
one_member = record { primary = new_member 7; backups = new_member 9 ∷ []; retry_delay = 30 }

abbrev pub two_sources : Inode
two_sources = record {
  attr = plain_attr;
  adapter_pool = some two_members;
  h_links = [];
  s_links = [];
  data_cache = [];
}

pub All-serve : (l : List ℕ) → All (Serves server served_file) l
All-serve [] = tt
All-serve (a ∷ rest) = (server-Serves a, All-serve rest)

pub two_sources-IsServing : IsServing server served_file two_sources
two_sources-IsServing = record {
  coherent = tt;
  serving = λ pool e. All-serve (refs (members pool));
}

read-IsCorrect_example :
    IsCorrect server served_file server-KeepsBuffer 1 3 (read server (pos 1) (pos 3) two_sources 0)
read-IsCorrect_example =
    read-IsCorrect server served_file server-KeepsBuffer 1 3 (omega arith) (omega arith) two_sources
      0 two_sources-IsServing

abbrev read_once : Inode × ℕ
read_once = let (r, n, w) = read server (pos 1) (pos 3) two_sources 0 in (n, w)

read_again_example :
    read server (pos 1) (pos 3) read_once.0 99 ≡ (ok (20 ∷ 30 ∷ 40 ∷ []), read_once.0, 99)
unfolding read Cache.get try_operation try_each last_resort mark_usable usable after_attempt
    read_operation Cache.slice
read_again_example =
    read_again server 1 3 (20 ∷ 30 ∷ 40 ∷ []) refl (omega arith) (omega arith) two_sources
      read_once.0 0 read_once.1 99 refl

try_operation_available_example :
    (try_operation server
      (read_operation server (pos 1) (pos 3))
      two_members
      (pos 0, 0 ∷ 0 ∷ 0 ∷ [])
      0).0
    ≡ ok tt
unfolding read_operation
try_operation_available_example =
    try_operation_available server (read_operation server (pos 1) (pos 3)) (λ w. refl)
      (λ a s w. server-calm 1 3 a s.1 w) 7 (λ s w. refl) two_members (pos 0, 0 ∷ 0 ∷ 0 ∷ []) 0
      (inr (inl (refl, refl)))

try_operation-members_example :
    let pool =
      (try_operation server
        (read_operation server (pos 1) (pos 3))
        two_members
        (pos 0, 0 ∷ 0 ∷ 0 ∷ [])
        0).1 in
    (refs (members pool) ≡ 9 ∷ 7 ∷ []) × All IsSane (members pool)
try_operation-members_example =
    try_operation-members server (read_operation server (pos 1) (pos 3)) two_members
      (pos 0, 0 ∷ 0 ∷ 0 ∷ []) 0 (λ e. refl, (λ e. refl, tt))

refresh_meta-IsRefreshed_example :
    IsRefreshed server served_file two_sources 0 (refresh_meta server two_sources 0).1
refresh_meta-IsRefreshed_example =
    refresh_meta-IsRefreshed server served_file two_sources 0 two_sources-IsServing

-- One reader wants three bytes, the others want two.
abbrev wanted : ℕ → ℕ × ℕ
wanted i = if nat_beq i 0 then (1, 3) else (2, 2)

-- Two readers both miss and both fetch; the second has stored and returned.
abbrev interleaved : Readers server
interleaved = move server 1 (
    move server 0 (
      move server 1 (
        move server 1 (
          move server 0 (record {
            inode = two_sources;
            world = 0;
            readers = λ i. asking (pos (wanted i).0) (pos (wanted i).1);
          })))))

interleaved-Interleaved : Interleaved server wanted two_sources 0 interleaved
interleaved-Interleaved = moved 1 (moved 0 (moved 1 (moved 1 (moved 0 begun))))

Interleaved-windows_example :
    IsServing server served_file interleaved.inode
    × ((i : ℕ) (bytes : List ℕ)
        → interleaved.readers i ≡ answered (ok bytes)
        → bytes ≡ window served_file (wanted i).0 (wanted i).1)
Interleaved-windows_example =
    Interleaved-windows server served_file server-KeepsBuffer (omega arith) (λ i. ground arith)
      two_sources-IsServing interleaved-Interleaved

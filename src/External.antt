-- ===== src/External.antt =====
-- What the filesystem package takes from outside: adapter.go's interfaces FileAdapter and
-- AdapterProvider, FileMetadata, and the clock, the request context, the process ids and the
-- fuse.Attr of the FUSE library. An adapter and a provider are references, which `Env` interprets.
use webfs.Base.{ℕ, ◌/◌, ◌%◌, ◌^◌, Option, none, List}
use webfs.Base.Int.{ℤ, pos, ◌-ℤ◌, to_u64}
use webfs.Base.Maps.{Text}
use webfs.Base.Result.{Result, Error}

-- time.Time: nanoseconds since the zero time, year 1.
abbrev pub Time : Type 0
Time = ℕ

-- uint64(t.Unix()): seconds since 1970, as the unsigned pattern of an int64.
abbrev pub unix_u64 : Time → ℕ
unix_u64 t = to_u64 (pos (t / 10 ^ 9) -ℤ pos 62135596800)

-- uint32(t.Nanosecond())
abbrev pub nanosecond : Time → ℕ
nanosecond t = t % 10 ^ 9

-- The fields of fuse.Attr that the code reads or writes.
pub record Attr : Type 0 where
  pub ino : ℕ
  pub size : ℕ
  pub atime : ℕ
  pub mtime : ℕ
  pub ctime : ℕ
  pub atimensec : ℕ
  pub mtimensec : ℕ
  pub ctimensec : ℕ
  pub mode : ℕ
  pub nlink : ℕ
  pub uid : ℕ
  pub gid : ℕ
  pub rdev : ℕ
  pub blksize : ℕ
  pub padding : ℕ

-- adapter.go, FileMetadata
pub record FileMetadata : Type 0 where
  pub size : ℕ
  pub last_modified : Option Time
  pub version : Text
  pub ttl : Option ℤ

-- adapter.go, FileSource
pub record FileSource : Type 0 where
  pub provider : ℕ
  pub config : Text
  pub priority : ℤ

-- Everything that a call outside of the repository may read or change is in `World`.
pub record Env : Type 1 where
  pub World : Type 0
  -- time.Now
  pub now : World → Time × World
  -- ctx.Err() of the request's context: `none` while it is not done
  pub ctx_err : World → Option Error
  -- FileAdapter.Read: the count, the error, the buffer as it is left
  pub read : ℕ → ℤ → ℤ → List ℕ → World → ℤ × Result (Unit {0}) × List ℕ × World
  -- FileAdapter.GetMeta
  pub get_meta : ℕ → World → Result FileMetadata × World
  -- AdapterProvider.Adapter
  pub new_adapter : ℕ → Text → World → Result ℕ × World
  -- os.Getuid, os.Getgid
  pub getuid : ℕ
  pub getgid : ℕ
  -- fuse.Attr.SetTimes of the FUSE library: access, modification and status change time
  pub set_times : Option Time → Option Time → Option Time → Attr → Attr

-- The same outside with context.Background(), which is never done
abbrev pub background : Env → Env
background env = record env { ctx_err = λ w. none }

-- adapter.go, FileSource.Adapter
unfoldable pub source_adapter : (env : Env) → FileSource → env.World → Result ℕ × env.World
source_adapter env s w = env.new_adapter s.provider s.config w

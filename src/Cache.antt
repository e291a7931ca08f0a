-- ===== src/Cache.antt =====
-- filesystem/inode.go: CachedRange and dataCache. The lock of a dataCache is taken by each method
-- for its whole body, so a method is one step. Offsets and sizes are int64 values, and the sums
-- that the code forms wrap. A byte slice that the cache holds was made with its own length as
-- capacity, so a slice expression on it panics past that length.
pub mod Coherence
pub mod Behaviour
use webfs.Base.{
  ℕ, ◌-◌, Bool, true, false, ◌&&◌, Option, none, some, List, [], ◌∷◌, ◌++◌, length, take, drop, leb,
  if◌then◌else◌,
}
use webfs.Base.Int.{ℤ, pos, negsuc, ◌+ℤ◌, ◌-ℤ◌, leb_ℤ, wrap64}
use webfs.Base.Result.{Result, ok, panics, ◌>>=◌}

pub record CachedRange : Type 0 where
  pub start : ℤ
  -- exclusive
  pub end : ℤ
  pub bytes : List ℕ

-- The state of a dataCache is its list of ranges.
abbrev pub DataCache : Type 0
DataCache = List CachedRange

-- newDataCache
abbrev pub empty : DataCache
empty = []

-- The slice expression `xs[lo:hi]` on a slice whose capacity is its length.
unfoldable pub slice : List ℕ → ℤ → ℤ → Result (List ℕ)
slice xs (pos lo) (pos hi) =
    if leb lo hi && leb hi (length xs) then ok (take (hi - lo) (drop lo xs)) else panics
slice xs (pos lo) (negsuc hi) = panics
slice xs (negsuc lo) hi = panics

-- The test of both loops: does the range hold all of offset ≤ i < end?
unfoldable pub contains : CachedRange → ℤ → ℤ → Bool
contains r offset end = leb_ℤ r.start offset && leb_ℤ end r.end

-- `r.data[startIdx:endIdx]` in dataCache.get
unfoldable pub extract : CachedRange → ℤ → ℤ → Result (Option (List ℕ))
unfolding slice
extract r offset size = do
  let start_idx = wrap64 (offset -ℤ r.start)
  let end_idx = wrap64 (start_idx +ℤ size)
  found ← slice r.bytes start_idx end_idx
  ok (some found)

get_loop : DataCache → ℤ → ℤ → ℤ → Result (Option (List ℕ))
get_loop [] offset size end = ok none
get_loop (r ∷ rs) offset size end =
    if contains r offset end then extract r offset size else get_loop rs offset size end

-- dataCache.get: `none` is the nil slice.
unfoldable pub get : DataCache → ℤ → ℤ → Result (Option (List ℕ))
unfolding get_loop
get dc offset size = get_loop dc offset size (wrap64 (offset +ℤ size))

-- dataCache.store: a range for `data` goes to the end of the list.
unfoldable pub store : DataCache → ℤ → List ℕ → DataCache
store dc offset [] = dc
store dc offset (b ∷ bs) =
    dc
    ++ record { start = offset; end = wrap64 (offset +ℤ pos (length (b ∷ bs))); bytes = b ∷ bs }
      ∷ []

is_cached_loop : DataCache → ℤ → ℤ → Bool
is_cached_loop [] offset end = false
is_cached_loop (r ∷ rs) offset end =
    if contains r offset end then true else is_cached_loop rs offset end

-- dataCache.isCached
unfoldable pub is_cached : DataCache → ℤ → ℤ → Bool
unfolding is_cached_loop
is_cached dc offset size = is_cached_loop dc offset (wrap64 (offset +ℤ size))

-- dataCache.getRanges: the copy of the slice holds the same ranges.
unfoldable pub get_ranges : DataCache → List CachedRange
get_ranges dc = dc

-- dataCache.clear
unfoldable pub clear : DataCache → DataCache
clear dc = []

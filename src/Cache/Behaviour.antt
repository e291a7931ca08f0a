-- ===== src/Cache/Behaviour.antt =====
-- How the methods of a dataCache relate, for all int64 arguments, and where `get` panics.
use webfs.Base.{
  ℕ, ◌+◌, ◌-◌, ◌^◌, ◌≤◌, ◌<◌, ◌≡◌, refl, ap, ◌∙◌, inl, inr, ◌↔◌, true, false, ◌&&◌, none, some,
  List, [], ◌∷◌, ◌++◌, length, take, drop, leb, arith, Bool-cases, if◌then◌else◌,
}
use webfs.Base.Int.{ℤ, pos, negsuc, ◌+ℤ◌, ◌-ℤ◌, leb_ℤ, wrap64}
use webfs.Base.Result.{ok, panics, ◌>>=◌}
use webfs.Cache.{
  CachedRange, DataCache, empty, slice, contains, extract, get_loop, get, store, is_cached_loop,
  is_cached,
}

slice-ne-err : (xs : List ℕ) (lo hi : ℤ) → (slice xs lo hi >>= λ b. ok (some b)) ≡ ok none → ⊥
unfolding slice
slice-ne-err xs (pos lo) (pos hi) h = ground arith
slice-ne-err xs (pos lo) (negsuc hi) h = cc
slice-ne-err xs (negsuc lo) hi h = cc

extract-ne-none : (r : CachedRange) (o n : ℤ) → extract r o n ≡ ok none → ⊥
unfolding extract
extract-ne-none r o n h =
    slice-ne-err r.bytes (wrap64 (o -ℤ r.start)) (wrap64 (wrap64 (o -ℤ r.start) +ℤ n)) h

is_cached_loop-get_loop :
    (dc : DataCache) (o n e : ℤ) → (is_cached_loop dc o e ≡ false) ↔ (get_loop dc o n e ≡ ok none)
unfolding is_cached_loop get_loop
is_cached_loop-get_loop [] o n e = (λ _. refl, λ _. refl)
is_cached_loop-get_loop (r ∷ rs) o n e = elim (Bool-cases (contains r o e)) [
  | inl hit ↦ rw hit (λ h. cc, λ h. absurd (extract-ne-none r o n h))
  | inr miss ↦ rw miss (is_cached_loop-get_loop rs o n e)
]

-- For all int64 arguments, isCached is false exactly when get returns nil.
pub is_cached-get : (dc : DataCache) (o n : ℤ) → (is_cached dc o n ≡ false) ↔ (get dc o n ≡ ok none)
unfolding is_cached get
is_cached-get dc o n = is_cached_loop-get_loop dc o n _

get_loop-append :
    (dc new : DataCache) (o n e : ℤ)
    → get_loop (dc ++ new) o n e
      ≡ (if is_cached_loop dc o e then get_loop dc o n e else get_loop new o n e)
unfolding is_cached_loop get_loop
get_loop-append [] new o n e = refl
get_loop-append (r ∷ rs) new o n e = elim (Bool-cases (contains r o e)) [
  | inl hit ↦ rw hit
  | inr miss ↦ rw miss (get_loop-append rs new o n e)
]

-- The older ranges come first.
get-store_empty :
    (dc : DataCache) (at : ℤ) (bytes : List ℕ) (o n : ℤ)
    → get (store dc at bytes) o n
      ≡ (if is_cached dc o n then get dc o n else get (store empty at bytes) o n)
unfolding get store is_cached
get-store_empty dc at [] o n = elim (Bool-cases (is_cached_loop dc o (wrap64 (o +ℤ n)))) [
  | inl hit ↦ rw hit
  | inr miss ↦ rw miss ((is_cached_loop-get_loop dc o n _).0 miss)
]
get-store_empty dc at (b ∷ bs) o n = get_loop-append dc _ o n _

-- The first range alone: what the slice expression makes of a request that it covers.
extract_inside :
    (r : CachedRange) (at k n : ℕ)
    → r.start ≡ pos at
    → k + n ≤ length r.bytes
    → at + length r.bytes < 2 ^ 63
    → extract r (pos (at + k)) (pos n) ≡ ok (some (take n (drop k r.bytes)))
unfolding extract slice
extract_inside r at k n s fits small =
    let lo : wrap64 (pos (at + k) -ℤ pos at) ≡ pos k = ground arith in
    let hi : wrap64 (pos k +ℤ pos n) ≡ pos (k + n) = ground arith in
    let room : leb k (k + n) ≡ true = ground arith in
    let below : leb (k + n) (length r.bytes) ≡ true = ground arith in
    let back : k + n - k ≡ n = omega arith in rw (s, lo, hi, room, below, back)

get_new :
    (at : ℕ) (bytes : List ℕ) (k n : ℕ)
    → k + n ≤ length bytes
    → 0 < length bytes
    → at + length bytes < 2 ^ 63
    → get (store empty (pos at) bytes) (pos (at + k)) (pos n) ≡ ok (some (take n (drop k bytes)))
unfolding get get_loop store contains
get_new at [] k n fits some_bytes small = elim some_bytes [ ]
get_new at (b ∷ bs) k n fits some_bytes small =
    let end : wrap64 (pos (at + k) +ℤ pos n) ≡ pos (at + k + n) = ground arith in
    let to : wrap64 (pos at +ℤ pos (length (b ∷ bs))) ≡ pos (at + length (b ∷ bs)) = ground arith in
    let above : leb_ℤ (pos at) (pos (at + k)) ≡ true = ground arith in
    let below : leb_ℤ (pos (at + k + n)) (pos (at + length (b ∷ bs))) ≡ true = ground arith in
    rw (end, to, above, below) (extract_inside _ at k n refl fits small)

-- Any part of non-empty bytes stored at a non-negative offset is read back, if the older ranges do
-- not cover the request and the end of the bytes is an int64.
pub get-store_part :
    (dc : DataCache) (at : ℕ) (bytes : List ℕ) (k n : ℕ)
    → is_cached dc (pos (at + k)) (pos n) ≡ false
    → k + n ≤ length bytes
    → 0 < length bytes
    → at + length bytes < 2 ^ 63
    → get (store dc (pos at) bytes) (pos (at + k)) (pos n) ≡ ok (some (take n (drop k bytes)))
get-store_part dc at bytes k n miss fits some_bytes small =
    rw (get-store_empty, miss) (get_new at bytes k n fits some_bytes small)

get_new_other :
    (at : ℕ) (bytes : List ℕ) (o n : ℕ)
    → at + length bytes < 2 ^ 63
    → o + n < 2 ^ 63
    → (leb at o && leb (o + n) (at + length bytes)) ≡ false
    → get (store empty (pos at) bytes) (pos o) (pos n) ≡ ok none
unfolding get get_loop store contains
get_new_other at [] o n small fits outside = refl
get_new_other at (b ∷ bs) o n small fits outside =
    let end : wrap64 (pos o +ℤ pos n) ≡ pos (o + n) = ground arith in
    let to : wrap64 (pos at +ℤ pos (length (b ∷ bs))) ≡ pos (at + length (b ∷ bs)) = ground arith in
    let closed : (leb_ℤ (pos at) (pos o) && leb_ℤ (pos (o + n)) (pos (at + length (b ∷ bs))))
        ≡ false =
      ground arith in
    rw (end, to, closed)

get_new_lem :
    (at : ℕ) (bytes : List ℕ) (o n : ℕ)
    → 0 < length bytes
    → at + length bytes < 2 ^ 63
    → o + n < 2 ^ 63
    → get (store empty (pos at) bytes) (pos o) (pos n) ≡ (
        if leb at o && leb (o + n) (at + length bytes)
        then ok (some (take n (drop (o - at) bytes)))
        else ok none)
get_new_lem at bytes o n some_bytes small fits =
    elim (Bool-cases (leb at o && leb (o + n) (at + length bytes))) [
      | inl inside ↦
          let above : at ≤ o = ground arith in
          let below : o + n ≤ at + length bytes = ground arith in
          let back : at + (o - at) ≡ o = omega arith in
          let found = get_new at bytes (o - at) n (omega arith) some_bytes small in
          rw inside (rw back at found)
      | inr outside ↦ rw outside (get_new_other at bytes o n small fits outside)
    ]

-- After store of some bytes at an offset, where the bytes and the request end below 2^63: a request
-- that the older ranges cover is answered as before; another one that lies within the stored
-- range is answered with exactly its bytes; and any other is a miss.
pub get-store :
    (dc : DataCache) (at : ℕ) (bytes : List ℕ) (o n : ℕ)
    → 0 < length bytes
    → at + length bytes < 2 ^ 63
    → o + n < 2 ^ 63
    → get (store dc (pos at) bytes) (pos o) (pos n) ≡ (
        if is_cached dc (pos o) (pos n)
        then get dc (pos o) (pos n)
        else if leb at o && leb (o + n) (at + length bytes)
        then ok (some (take n (drop (o - at) bytes)))
        else ok none)
get-store dc at bytes o n some_bytes small fits =
    get-store_empty dc (pos at) bytes (pos o) (pos n)
    ∙ ap (λ r. if is_cached dc (pos o) (pos n) then get dc (pos o) (pos n) else r)
        (get_new_lem at bytes o n some_bytes small fits)

-- A range that store made for bytes at a non-negative offset.
pub record IsStored (r : CachedRange) : Type 0 where
  pub first : ℕ
  pub start_eq : r.start ≡ pos first
  pub end_eq : r.end ≡ pos (first + length r.bytes)
  pub small : first + length r.bytes < 2 ^ 63

extract_wraps :
    (r : CachedRange) (h : IsStored r) (o n : ℕ)
    → h.first ≤ o
    → o < 2 ^ 63
    → n < 2 ^ 63
    → 2 ^ 63 ≤ o + n
    → extract r (pos o) (pos n) ≡ panics
unfolding extract slice
extract_wraps r h o n above o_small n_small over =
    let small = h.small in
    let lo : wrap64 (pos o -ℤ pos h.first) ≡ pos (o - h.first) = ground arith in
    rw (h.start_eq, lo) (ground (arith, small))

-- Let the first range be one that was stored at a non-negative offset. A request at an int64
-- offset that is not before it, whose end passes the largest int64, panics: the wrapped end passes
-- the test of the loop, and the slice expression is out of bounds.
pub get_overflow :
    (r : CachedRange) (dc : DataCache) (h : IsStored r) (o n : ℕ)
    → h.first ≤ o
    → o < 2 ^ 63
    → n < 2 ^ 63
    → 2 ^ 63 ≤ o + n
    → get (r ∷ dc) (pos o) (pos n) ≡ panics
unfolding get get_loop contains
get_overflow r dc h o n above o_small n_small over =
    let start_le : leb_ℤ r.start (pos o) ≡ true = rw (h.start_eq) (ground arith) in
    let end_le : leb_ℤ (wrap64 (pos o +ℤ pos n)) r.end ≡ true = rw (h.end_eq) (ground arith) in
    rw (start_le, end_le) (extract_wraps r h o n above o_small n_small over)

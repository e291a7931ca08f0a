-- ===== src/Cache/Coherence.antt =====
-- What the cache returns, as long as every range holds bytes of one file.
use webfs.Base.{
  ℕ, ◌+◌, ◌-◌, ◌^◌, ◌≤◌, ◌<◌, ◌≡◌, refl, ap, ◌∙◌, ◌⊎◌, inl, inr, true, Option, none, some, List, [],
  ◌∷◌, length, take, drop, leb, All, All-append, arith, Bool-cases, take-drop-take, drop-drop,
  length-take, length-drop,
}
use webfs.Base.Int.{ℤ, pos, ◌+ℤ◌, ◌-ℤ◌, wrap64}
use webfs.Base.Result.{Result, ok}
use webfs.Cache.{CachedRange, DataCache, slice, contains, extract, get_loop, get, store}

-- The window of a file that starts at `offset` and holds at most `size` bytes.
abbrev pub window : List ℕ → ℕ → ℕ → List ℕ
window file offset size = take size (drop offset file)

-- The range stands for the bytes start ≤ i < end of the file.
pub record IsCoherent (file : List ℕ) (r : CachedRange) : Type 0 where
  pub first : ℕ
  pub count : ℕ
  pub start_eq : r.start ≡ pos first
  pub end_eq : r.end ≡ pos (first + count)
  pub inside : first + count ≤ length file
  pub bytes_eq : r.bytes ≡ window file first count

contains_iff :
    (r : CachedRange) (file : List ℕ) (h : IsCoherent file r) (o n : ℕ)
    → contains r (pos o) (pos (o + n)) ≡ true
    → (h.first ≤ o) × (o + n ≤ h.first + h.count)
unfolding contains
contains_iff r file h o n e = ground arith

slice-window :
    (file : List ℕ) (first count k n : ℕ)
    → first + count ≤ length file
    → k + n ≤ count
    → slice (window file first count) (pos k) (pos (k + n)) ≡ ok (window file (first + k) n)
unfolding slice
slice-window file first count k n inside fits =
    let room : leb k (k + n) ≡ true = ground arith in
    let len : length (window file first count) ≡ count =
      omega (arith, length-take count (drop first file), length-drop first file) in
    let below : leb (k + n) (length (window file first count)) ≡ true = rw len (ground arith) in
    let back : k + n - k ≡ n = omega arith in
    rw (room, below, back)
      (ap ok
        (take-drop-take n k count (drop first file) fits ∙ ap (take n) (drop-drop first k file)))

start-index :
    (r : CachedRange) (file : List ℕ) (h : IsCoherent file r) (o : ℕ)
    → h.first ≤ o
    → o < 2 ^ 63
    → wrap64 (pos o -ℤ r.start) ≡ pos (o - h.first)
start-index r file h o p q = rw (h.start_eq) (ground arith)

-- On a range that covers the request, the slice expression stays in bounds and cuts the window.
extract-window :
    (file : List ℕ) (r : CachedRange) (h : IsCoherent file r) (o n : ℕ)
    → length file < 2 ^ 63
    → h.first ≤ o
    → o + n ≤ h.first + h.count
    → extract r (pos o) (pos n) ≡ ok (some (window file o n))
unfolding extract
extract-window file r h o n small above below =
    let i = o - h.first in
    let inside = h.inside in
    let lo : wrap64 (pos o -ℤ r.start) ≡ pos i =
      start-index r file h o above (omega (arith, inside)) in
    let hi : wrap64 (pos i +ℤ pos n) ≡ pos (i + n) = ground (arith, inside) in
    let cut = slice-window file h.first h.count i n inside (omega arith) in
    let back : h.first + i ≡ o = omega arith in rw (lo, hi, h.bytes_eq, cut, back)

-- What a lookup may answer: nothing, or the window of the file, which then lies inside it.
abbrev pub Answers : List ℕ → ℕ → ℕ → Result (Option (List ℕ)) → Type 0
Answers file o n r = (r ≡ ok none) ⊎ ((r ≡ ok (some (window file o n))) × (o + n ≤ length file))

get_loop-Answers :
    (file : List ℕ) (dc : DataCache) (o n : ℕ)
    → length file < 2 ^ 63
    → All (IsCoherent file) dc
    → Answers file o n (get_loop dc (pos o) (pos n) (pos (o + n)))
unfolding get_loop
get_loop-Answers file [] o n small h = inl refl
get_loop-Answers file (r ∷ rs) o n small h = elim (Bool-cases (contains r (pos o) (pos (o + n)))) [
  | inl covered ↦
      let (above, below) = contains_iff r file h.0 o n covered in
      let inside = h.0.inside in
      rw covered (inr (extract-window file r h.0 o n small above below, omega (arith, inside)))
  | inr missed ↦ rw missed (get_loop-Answers file rs o n small h.1)
]

-- For a file of fewer than 2^63 bytes and a request that ends below 2^63: if all ranges hold bytes
-- of the file, a lookup never panics, and it returns either nil or the requested window, which
-- then lies within the file.
pub get-coherent :
    (file : List ℕ) (dc : DataCache) (o n : ℕ)
    → length file < 2 ^ 63
    → o + n < 2 ^ 63
    → All (IsCoherent file) dc
    → Answers file o n (get dc (pos o) (pos n))
unfolding get
get-coherent file dc o n small fits h =
    let end : wrap64 (pos o +ℤ pos n) ≡ pos (o + n) = ground arith in
    rw end (get_loop-Answers file dc o n small h)

new_range-IsCoherent :
    (file : List ℕ) (o : ℕ) (data' : List ℕ) (end : ℤ)
    → end ≡ pos (o + length data')
    → o + length data' ≤ length file
    → data' ≡ window file o (length data')
    → IsCoherent file (record { start = pos o; end = end; bytes = data' })
new_range-IsCoherent file o bytes end e inside same = record {
  first = o;
  count = length bytes;
  start_eq = refl;
  end_eq = e;
  inside = inside;
  bytes_eq = same;
}

-- Storing bytes of the file at the place where they stand in it keeps every range coherent.
pub store-IsCoherent :
    (file : List ℕ) (dc : DataCache) (o : ℕ) (bytes : List ℕ)
    → length file < 2 ^ 63
    → o + length bytes ≤ length file
    → bytes ≡ window file o (length bytes)
    → All (IsCoherent file) dc
    → All (IsCoherent file) (store dc (pos o) bytes)
unfolding store
store-IsCoherent file dc o [] small inside same h = h
store-IsCoherent file dc o (b ∷ bs) small inside same h =
    All-append (IsCoherent file) dc _ h
      (new_range-IsCoherent file o (b ∷ bs) _ (ground arith) inside same, tt)

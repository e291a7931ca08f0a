-- ===== src/Http/Lengths.antt =====
-- adapters/http.go, Read: the buffer keeps its length, whatever the request meets.
use webfs.Base.{
  ℕ, ◌≤◌, ◌≡◌, refl, ap, ◌∙◌, inl, inr, true, false, not, ◌&&◌, Option, none, some, List, ◌++◌,
  length, take, drop, leb, ltb, nat_beq, arith, Bool-cases, length-append, length-take, length-drop,
}
use webfs.Base.Int.{ℤ, pos, negsuc, ltb_ℤ}
use webfs.Base.Result.{Result, Error, ok, err, panics}
use webfs.Http.Stream.{Body, discard, read_full}
use webfs.Http.{
  HttpSource, Request, Response, Client, new_request, get_method, filled, fill, skip_to, after_skip,
  read_response, with_range, after_send, after_request, read,
}

length-read_full : (b : Body) (buf : List ℕ) → length (read_full b buf).2 ≡ length buf
unfolding read_full
length-read_full b buf = elim (Bool-cases (leb (length buf) (length b.bytes))) [
  | inl long ↦ rw long (omega (arith, length-take (length buf) b.bytes, long_lem long))
  | inr short ↦ rw short (
      length-append b.bytes (drop (length b.bytes) buf)
      ∙ omega (arith, length-drop (length b.bytes) buf, short_lem short))
]
  where
    long_lem : leb (length buf) (length b.bytes) ≡ true → length buf ≤ length b.bytes
    long_lem e = ground arith

    short_lem : leb (length buf) (length b.bytes) ≡ false → length b.bytes ≤ length buf
    short_lem e = ground arith

filled_buffer : (rest : List ℕ) (o : ℕ × Option Error × List ℕ) → (filled rest o).2 ≡ o.2 ++ rest
unfolding filled
filled_buffer rest (n, none, part) = refl
filled_buffer rest (n, some e, part) = ground arith

-- The size does not exceed the buffer.
abbrev Fits : ℤ → List ℕ → Type 0
Fits size buf = ltb_ℤ (pos (length buf)) size ≡ false

length-fill :
    (size : ℤ) (buf : List ℕ) (body : Body)
    → Fits size buf
    → length (fill size buf body).2 ≡ length buf
unfolding fill
length-fill (negsuc size) buf body h = refl
length-fill (pos size) buf body h =
    let room : size ≤ length buf = ground arith in
    ap length (filled_buffer (drop size buf) (read_full body (take size buf)))
    ∙ length-append (read_full body (take size buf)).2 (drop size buf)
    ∙ omega
        (arith, length-read_full body (take size buf), length-take size buf, length-drop size buf)

length-after_skip :
    (offset : ℕ) (size : ℤ) (buf : List ℕ) (o : ℕ × Option Error × Body)
    → Fits size buf
    → length (after_skip offset size buf o).2 ≡ length buf
unfolding after_skip
length-after_skip offset size buf (n, some e, body) h = refl
length-after_skip offset size buf (n, none, body) h = elim (Bool-cases (nat_beq n offset)) [
  | inl same ↦ rw same (length-fill size buf body h)
  | inr other ↦ rw other
]

length-skip_to :
    (offset size : ℤ) (buf : List ℕ) (body : Body)
    → Fits size buf
    → length (skip_to offset size buf body).2 ≡ length buf
unfolding skip_to
length-skip_to (negsuc offset) size buf body h = length-fill size buf body h
length-skip_to (pos offset) size buf body h = elim (Bool-cases (ltb 0 offset)) [
  | inl later ↦ rw later (length-after_skip offset size buf (discard offset body) h)
  | inr first ↦ rw first (length-fill size buf body h)
]

length-read_response :
    (offset size : ℤ) (buf : List ℕ) (resp : Response)
    → Fits size buf
    → length (read_response offset size buf resp).2 ≡ length buf
unfolding read_response
length-read_response offset size buf resp h =
    elim (Bool-cases (not (nat_beq resp.status 206) && not (nat_beq resp.status 200))) [
      | inl failed ↦ rw failed
      | inr fine ↦ rw fine (elim (Bool-cases (nat_beq resp.status 200)) [
        | inl full ↦ rw full (length-skip_to offset size buf resp.body h)
        | inr partial ↦ rw partial (length-fill size buf resp.body h)
      ])
    ]

module _ {W : Type 0} (client : Client W) (offset size : ℤ) (buf : List ℕ) where
  length-after_send :
      (o : Result Response × W)
      → Fits size buf
      → length (after_send client offset size buf o).2 ≡ length buf
  unfolding after_send
  length-after_send (ok resp, w) h = length-read_response offset size buf resp h
  length-after_send (err e, w) h = refl
  length-after_send (panics, w) h = refl

  length-after_request :
      (o : Result Request × W)
      → Fits size buf
      → length (after_request client offset size buf o).2 ≡ length buf
  unfolding after_request
  length-after_request (ok req, w) h =
      length-after_send (client.send (with_range client offset size req) w) h
  length-after_request (err e, w) h = refl
  length-after_request (panics, w) h = refl

  pub length-read :
      (cfg : HttpSource) (w : W) → length (read client cfg offset size buf w).2 ≡ length buf
  unfolding read
  length-read cfg w = elim (Bool-cases (ltb_ℤ (pos (length buf)) size)) [
    | inl small ↦ rw small
    | inr fits ↦ rw fits (length-after_request (new_request client cfg (get_method cfg) w) fits)
  ]

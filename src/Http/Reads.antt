-- ===== src/Http/Reads.antt =====
-- adapters/http.go, Read: what it returns for the answers of a server that has the file.
use webfs.Base.{
  ℕ, ◌≤◌, ◌<◌, ◌≡◌, ◌≢◌, refl, sym, ap, subst, ◌∙◌, ◌⊎◌, inl, inr, true, false, none, some, List,
  [], ◌∷◌, ◌++◌, length, take, drop, leb, ltb, nat_beq, arith, Bool-cases, length-append,
  length-take, length-drop, take_all,
}
use mathlib.Core.List.{append_assoc}
use webfs.Base.Int.{ℤ, pos}
use webfs.Base.Maps.{text_eq}
use webfs.Base.Result.{Result, ok, err, eof, unexpected_eof, skip_failed}
use webfs.Cache.Coherence.{window}
use webfs.Inode.Reads.{ServesRead}
use webfs.Http.Stream.{Body, discard, read_full, short_read}
use webfs.Http.{Response, is_end, filled, fill, skip_to, after_skip, read_response}

-- A body that yields the bytes and then ends, with no error.
abbrev pub whole : List ℕ → Body
whole bytes = record { bytes = bytes; end = none }

take-length_append : (xs ys : List ℕ) → take (length xs) (xs ++ ys) ≡ xs
take-length_append [] ys = refl
take-length_append (x ∷ xs) ys = ap (λ l. x ∷ l) (take-length_append xs ys)

read_full_long :
    (bytes buf : List ℕ)
    → length buf ≤ length bytes
    → read_full (whole bytes) buf ≡ (length buf, none, take (length buf) bytes)
unfolding read_full
read_full_long bytes buf h =
    let long : leb (length buf) (length bytes) ≡ true = ground arith in rw long

read_full_short :
    (b : Body) (buf : List ℕ)
    → length b.bytes < length buf
    → read_full b buf ≡ (
      length b.bytes,
      some (short_read (length b.bytes) b.end),
      b.bytes ++ drop (length b.bytes) buf,
    )
unfolding read_full
read_full_short b buf h =
    let short : leb (length buf) (length b.bytes) ≡ false = ground arith in rw short

short_is_end : (n : ℕ) → is_end (short_read n none) ≡ true
unfolding is_end
short_is_end n = elim (Bool-cases (leb n 0)) [ inl e ↦ rw e | inr e ↦ rw e ]

-- A buffer that starts with the given bytes, of the length of the old one.
abbrev Filled : List ℕ → List ℕ → ℤ × Result (Unit {0}) × List ℕ → Type 0
Filled bytes buf out =
    (rest : List ℕ) × (out ≡ (pos (length bytes), ok tt, bytes ++ rest))
    × (length (bytes ++ rest) ≡ length buf)

fill-Filled :
    (size : ℕ) (buf bytes : List ℕ)
    → size ≤ length buf
    → Filled (take size bytes) buf (fill (pos size) buf (whole bytes))
unfolding fill filled
fill-Filled size buf bytes room =
    let part : length (take size buf) ≡ size = omega (arith, length-take size buf) in
    let tail = length-drop size buf in
    elim (Bool-cases (leb size (length bytes))) [
      | inl long ↦
          let whole_part : length (take size bytes) ≡ size =
            ground (arith, length-take size bytes) in
          let enough : size ≤ length bytes = ground arith in
          (
            drop size buf,
            rw (read_full_long bytes (take size buf) (omega (arith, part)), part, whole_part),
            length-append (take size bytes) (drop size buf) ∙ omega arith,
          )
      | inr short ↦
          let below : length bytes < size = ground arith in
          let all : take size bytes ≡ bytes = take_all size bytes (omega arith) in
          let kept = length-drop (length bytes) (take size buf) in
          (
            drop (length bytes) (take size buf) ++ drop size buf,
            rw
                (
                  read_full_short (whole bytes) (take size buf) (omega (arith, part)),
                  all,
                  short_is_end (length bytes),
                )
                (ap (λ l. (pos (length bytes), ok tt, l)) (append_assoc bytes _ _)),
            rw all (
                length-append bytes _
                ∙ omega
                    (arith, length-append (drop (length bytes) (take size buf)) (drop size buf))),
          )
    ]

Filled-ServesRead :
    (file : List ℕ) (offset size : ℕ) (buf bytes : List ℕ) (out : ℤ × Result (Unit {0}) × List ℕ)
    → bytes ≡ window file offset size
    → Filled bytes buf out
    → ServesRead file offset size out.0 buf out.2
Filled-ServesRead file offset size buf bytes out same (rest, e, len) = record {
  bytes_read = length bytes;
  count_eq = ap (λ o. o.0) e;
  same_length = ap (λ o. length o.2) e ∙ len;
  fits = rw (ap (λ o. o.2) e) (omega (arith, length-append bytes rest));
  front = ap (λ o. take (length bytes) o.2) e ∙ take-length_append bytes rest ∙ same;
}

-- The answer of a server that has the file, to a request for the range: the range as a partial
-- response, the whole file, or a response of another status.
abbrev pub IsAnswer : List ℕ → ℕ → ℕ → Response → Type 0
IsAnswer file offset size resp =
    ((resp.status ≡ 206) × (resp.body ≡ whole (window file offset size)))
    ⊎ ((resp.status ≡ 200) × (resp.body ≡ whole file))
    ⊎ ((resp.status ≢ 206) × (resp.status ≢ 200))

discard_inside :
    (n : ℕ) (bytes : List ℕ)
    → n ≤ length bytes
    → discard n (whole bytes) ≡ (n, none, whole (drop n bytes))
unfolding discard
discard_inside n bytes h = let inside : leb n (length bytes) ≡ true = ground arith in rw inside

discard_beyond :
    (n : ℕ) (bytes : List ℕ)
    → length bytes < n
    → discard n (whole bytes) ≡ (length bytes, some eof, whole [])
unfolding discard
discard_beyond n bytes h = let beyond : leb n (length bytes) ≡ false = ground arith in rw beyond

module _ (file : List ℕ) (offset size : ℕ) (buf : List ℕ) (room : size ≤ length buf) where
  skip_to_inside :
      0 < offset
      → offset ≤ length file
      → skip_to (pos offset) (pos size) buf (whole file)
        ≡ fill (pos size) buf (whole (drop offset file))
  unfolding skip_to
  skip_to_inside later inside =
      let test : ltb 0 offset ≡ true = ground arith in
      let same : nat_beq offset offset ≡ true = ground arith in
      rw test (
        ap (after_skip offset (pos size) buf) (discard_inside offset file inside)
        ∙ (unfold after_skip in rw same))

  -- A full response that ends before the offset is an error.
  pub skip_to_beyond :
      length file < offset
      → skip_to (pos offset) (pos size) buf (whole file) ≡ (pos 0, err (skip_failed eof), buf)
  unfolding skip_to
  skip_to_beyond beyond =
      let test : ltb 0 offset ≡ true = ground arith in
      rw test (
        ap (after_skip offset (pos size) buf) (discard_beyond offset file beyond)
        ∙ (unfold after_skip in refl))

  abbrev pub Serving : ℤ × Result (Unit {0}) × List ℕ → Type 0
  Serving out = out.1 ≡ ok tt → ServesRead file offset size out.0 buf out.2

  window-Serving :
      (bytes : List ℕ)
      → take size bytes ≡ window file offset size
      → Serving (fill (pos size) buf (whole bytes))
  window-Serving bytes same success =
      Filled-ServesRead file offset size buf (take size bytes) _ same
        (fill-Filled size buf bytes room)

  skip_to-Serving : Serving (skip_to (pos offset) (pos size) buf (whole file))
  skip_to-Serving = elim (Bool-cases (ltb 0 offset)) [
    | inl later ↦ elim (Bool-cases (leb offset (length file))) [
      | inl inside ↦
          subst Serving (sym (skip_to_inside (ground arith) (ground arith)))
            (window-Serving (drop offset file) refl)
      | inr beyond ↦
          subst Serving (sym (skip_to_beyond (ground arith))) (λ success. absurd (cc success))
    ]
    | inr first ↦
        let zero_offset : offset ≡ 0 = ground arith in
        unfold skip_to in
        rw first (window-Serving file (ap (λ k. window file k size) (sym zero_offset)))
  ]

  -- A successful Read of a server's answer has put the window into the buffer.
  pub read_response-Serving :
      (resp : Response)
      → IsAnswer file offset size resp
      → Serving (read_response (pos offset) (pos size) buf resp)
  unfolding read_response
  read_response-Serving resp (inl (status, body)) =
      rw (status, body)
        (window-Serving (window file offset size) (
          take_all size (window file offset size)
            (omega (arith, length-take size (drop offset file)))))
  read_response-Serving resp (inr (inl (status, body))) = rw (status, body) skip_to-Serving
  read_response-Serving resp (inr (inr (a, b))) =
      let other : nat_beq resp.status 206 ≡ false = ground arith in
      let other' : nat_beq resp.status 200 ≡ false = ground arith in
      rw (other, other') (λ success. absurd (cc success))

-- A partial response that breaks off after `got`, one byte at least and less than was asked for, is
-- taken for the end of the file: Read reports success, with the bytes that came.
pub read_truncated :
    (offset size : ℕ) (got buf : List ℕ) (resp : Response)
    → size ≤ length buf
    → 0 < length got
    → length got < size
    → resp.status ≡ 206
    → resp.body ≡ record { bytes = got; end = some unexpected_eof }
    → (rest : List ℕ) × (read_response (pos offset) (pos size) buf resp
        ≡ (pos (length got), ok tt, got ++ rest))
unfolding read_response fill filled is_end
read_truncated offset size got buf resp room some_bytes short status body =
    let part : length (take size buf) ≡ size = omega (arith, length-take size buf) in
    (
      drop (length got) (take size buf) ++ drop size buf,
      rw
          (
            status,
            body,
            read_full_short (record { bytes = got; end = some unexpected_eof }) (take size buf)
                (omega (arith, part)),
          )
          (ap (λ l. (pos (length got), ok tt, l)) (append_assoc got _ _)),
    )

-- ===== src/Http.antt =====
-- adapters/http.go: HTTPProvider and HTTPAdapter. What the code takes from net/http and from the
-- network is the record `Client`; Go's package io on a response's body is in Http/Stream, and the text
-- of the Range header in Http/Range. A response header is its first values by canonical name.
pub mod Stream
pub mod Range
pub mod Reads
pub mod Lengths
pub mod Served
pub mod Metadata
use webfs.Base.{
  ℕ, ◌+◌, ◌-◌, Bool, true, false, ◌&&◌, ◌||◌, not, Option, none, some, List, [], ◌∷◌, ◌++◌, length,
  take, drop, nat_beq, leb, ltb, if◌then◌else◌,
}
use webfs.Base.Int.{ℤ, pos, negsuc, ◌+ℤ◌, ◌-ℤ◌, ltb_ℤ, wrap64, to_u64}
use webfs.Base.Maps.{Map, Text, load, store, text_eq}
use webfs.Base.Result.{
  Result, Error, ok, err, panics, buffer_too_small, http_status, skip_failed, read_failed,
  read_only, skipped, eof, unexpected_eof,
}
use webfs.External.{Env, Time, FileMetadata}
use webfs.Paths.{codes}
use webfs.Http.Stream.{Body, discard, read_full}
use webfs.Http.Range.{range_text}

-- HTTPSource
pub record HttpSource : Type 0 where
  pub url : Text
  pub method : Option Text
  pub headers : Map Text Text

-- http.Header
abbrev pub Header : Type 0
Header = Map Text Text

pub record Request : Type 0 where
  pub method : Text
  pub url : Text
  pub header : Header

pub record Response : Type 0 where
  pub status : ℕ
  pub status_text : Text
  pub content_length : ℤ
  pub header : Header
  pub body : Body

-- What is outside: `W` is the world of the environment.
pub record Client (W : Type 0) : Type 0 where
  -- textproto's canonical form of a header's name
  pub canonical : Text → Text
  -- the error of http.NewRequestWithContext for a method and a URL
  pub request_error : Text → Text → Option Error
  -- the entries of a headers map in the order in which a loop visits them
  pub visit : Map Text Text → W → List (Text × Text) × W
  -- http.DefaultClient.Do
  pub send : Request → W → Result Response × W
  -- resp.Body.Close, whose error is only logged
  pub close_body : Response → W → W
  -- http.ParseTime
  pub parse_time : Text → Option Time
  -- json.Unmarshal of an HTTPSource
  pub unmarshal_source : Text → Result HttpSource

abbrev pub http_get : Text
http_get = codes "GET"

abbrev pub http_head : Text
http_head = codes "HEAD"

abbrev pub or_empty : Option Text → Text
or_empty none = []
or_empty (some t) = t

-- getMethod
unfoldable pub get_method : HttpSource → Text
get_method cfg = elim cfg.method [ none ↦ http_get | some m ↦ m ]

-- The errors that Read takes for the end of the file.
unfoldable pub is_end : Error → Bool
is_end eof = true
is_end unexpected_eof = true
is_end _ = false

-- The end of Read; `rest` is the buffer after its first `size` bytes.
filled : List ℕ → ℕ × Option Error × List ℕ → ℤ × Result (Unit {0}) × List ℕ
unfolding is_end
filled rest (n, none, part) = (pos n, ok tt, part ++ rest)
filled rest (n, some e, part) =
    if is_end e then (pos n, ok tt, part ++ rest) else (pos 0, err (read_failed e), part ++ rest)

-- io.ReadFull into `buf[:size]` and the test of its error. A negative size panics in the slice
-- expression.
unfoldable pub fill : ℤ → List ℕ → Body → ℤ × Result (Unit {0}) × List ℕ
unfolding filled read_full
fill (negsuc size) buf body = (pos 0, panics, buf)
fill (pos size) buf body = filled (drop size buf) (read_full body (take size buf))

after_skip : ℕ → ℤ → List ℕ → ℕ × Option Error × Body → ℤ × Result (Unit {0}) × List ℕ
unfolding fill
after_skip offset size buf (n, some e, body) = (pos 0, err (skip_failed e), buf)
after_skip offset size buf (n, none, body) =
    if nat_beq n offset then fill size buf body else (pos 0, err (skipped n), buf)

-- A full response is skipped up to the offset.
unfoldable pub skip_to : ℤ → ℤ → List ℕ → Body → ℤ × Result (Unit {0}) × List ℕ
unfolding fill after_skip discard
skip_to (pos offset) size buf body =
    if ltb 0 offset then after_skip offset size buf (discard offset body) else fill size buf body
skip_to (negsuc offset) size buf body = fill size buf body

-- The part of Read between the response and the deferred closeResp
unfoldable pub read_response : ℤ → ℤ → List ℕ → Response → ℤ × Result (Unit {0}) × List ℕ
unfolding skip_to
read_response offset size buf resp =
    if not (nat_beq resp.status 206) && not (nat_beq resp.status 200)
    then (pos 0, err (http_status resp.status resp.status_text), buf)
    else if nat_beq resp.status 200
    then skip_to offset size buf resp.body
    else fill size buf resp.body

module _ {W : Type 0} (client : Client W) where
  open client use {canonical, request_error, visit, send, close_body, parse_time}

  -- Header.Set and Header.Get
  abbrev pub header_set : Text → Text → Header → Header
  header_set k v h = store (canonical k) v h

  abbrev pub header_get : Text → Header → Text
  header_get k h = or_empty (load (canonical k) h)

  unfoldable pub set_all : List (Text × Text) → Header → Header
  set_all [] h = h
  set_all ((k, v) ∷ rest) h = set_all rest (header_set k v h)

  -- newRequest
  unfoldable pub new_request : HttpSource → Text → W → Result Request × W
  unfolding set_all
  new_request cfg method w = elim (request_error method cfg.url) [
    | some e ↦ (err e, w)
    | none ↦
        let (entries, w') = visit cfg.headers w in
        (ok (record { method = method; url = cfg.url; header = set_all entries [] }), w')
  ]

  abbrev pub Reply : Type 0
  Reply = ℤ × Result (Unit {0}) × List ℕ × W

  -- The Range header of Read. The end of the range is a wrapped int64.
  unfoldable pub with_range : ℤ → ℤ → Request → Request
  with_range offset size req =
      let last = wrap64 (wrap64 (offset +ℤ size) -ℤ pos 1) in
      record req { header = header_set (codes "Range") (range_text offset last) req.header }

  after_send : ℤ → ℤ → List ℕ → Result Response × W → Reply
  unfolding read_response
  after_send offset size buf (ok resp, w) =
      let (n, r, buf') = read_response offset size buf resp in (n, r, buf', close_body resp w)
  after_send offset size buf (err e, w) = (pos 0, err e, buf, w)
  after_send offset size buf (panics, w) = (pos 0, panics, buf, w)

  after_request : ℤ → ℤ → List ℕ → Result Request × W → Reply
  unfolding with_range after_send
  after_request offset size buf (ok req, w) =
      after_send offset size buf (send (with_range offset size req) w)
  after_request offset size buf (err e, w) = (pos 0, err e, buf, w)
  after_request offset size buf (panics, w) = (pos 0, panics, buf, w)

  -- HTTPAdapter.Read: the count, the error, and the buffer as it is left
  unfoldable pub read : HttpSource → ℤ → ℤ → List ℕ → W → Reply
  unfolding after_request new_request get_method
  read cfg offset size buf w =
      if ltb_ℤ (pos (length buf)) size
      then (pos 0, err buffer_too_small, buf, w)
      else after_request offset size buf (new_request cfg (get_method cfg) w)

  -- HTTPAdapter.Write
  unfoldable pub write : HttpSource → ℤ → List ℕ → W → ℤ × Result (Unit {0}) × W
  write cfg offset bytes w = (pos 0, err read_only, w)

  opened_response : Result Response × W → Result Body × W
  opened_response (ok resp, w) = (ok resp.body, w)
  opened_response (err e, w) = (err e, w)
  opened_response (panics, w) = (panics, w)

  opened : Result Request × W → Result Body × W
  unfolding opened_response
  opened (ok req, w) = opened_response (send req w)
  opened (err e, w) = (err e, w)
  opened (panics, w) = (panics, w)

  -- HTTPAdapter.Open: the response's body, which the caller closes
  unfoldable pub open_body : HttpSource → W → Result Body × W
  unfolding opened new_request get_method
  open_body cfg w = opened (new_request cfg (get_method cfg) w)

  parsed : Text → Option Time
  parsed [] = none
  parsed (c ∷ s) = parse_time (c ∷ s)

  -- What GetMeta makes of a response.
  unfoldable pub meta_of : Response → Result FileMetadata
  unfolding parsed
  meta_of resp =
      if ltb resp.status 200 || leb 300 resp.status
      then err (http_status resp.status resp.status_text)
      else ok (record {
        size = to_u64 resp.content_length;
        last_modified = parsed (header_get (codes "Last-Modified") resp.header);
        version = header_get (codes "ETag") resp.header;
        ttl = none;
      })

  after_head : Result Response × W → Result FileMetadata × W
  unfolding meta_of
  after_head (ok resp, w) = (meta_of resp, close_body resp w)
  after_head (err e, w) = (err e, w)
  after_head (panics, w) = (panics, w)

  head_request : Result Request × W → Result FileMetadata × W
  unfolding after_head
  head_request (ok req, w) = after_head (send req w)
  head_request (err e, w) = (err e, w)
  head_request (panics, w) = (panics, w)

  -- HTTPAdapter.GetMeta
  unfoldable pub get_meta : HttpSource → W → Result FileMetadata × W
  unfolding head_request new_request
  get_meta cfg w = head_request (new_request cfg http_head w)

  -- HTTPProvider.Adapter: the adapter is its configuration
  unfoldable pub provide : Text → Result HttpSource
  provide raw = client.unmarshal_source raw

-- ===== src/Http/Served.antt =====
-- HTTP adapters as the adapters of an inode: what the inode's Read then returns.
use webfs.Base.{
  ℕ, ◌+◌, ◌^◌, ◌≤◌, ◌<◌, ◌≡◌, refl, ap, sym, subst, ◌∙◌, inl, inr, true, false, some, List, [],
  length, All, All-map, arith, Option-cases,
}
use mathlib.Core.Option.{some-injective}
use webfs.Base.Int.{ℤ, pos, ◌+ℤ◌, ◌-ℤ◌, ltb_ℤ, wrap64}
use webfs.Base.Maps.{Text, text_eq, text_beq, text_beq_iff, load-store}
use webfs.Base.Result.{Result, ok, err, panics}
use webfs.External.{Env}
use webfs.Cache.Coherence.{IsCoherent}
use webfs.Pool.{AdapterPool}
use webfs.Pool.Failover.{refs, members}
use webfs.Inode
use webfs.Inode.{Inode}
use webfs.Inode.Reads.{ServesRead, Serves, KeepsBuffer, IsCorrect, read-IsCorrect}
use webfs.Paths.{codes}
use webfs.Http.Range.{range_text}
use webfs.Http.Lengths.{length-read}
use webfs.Http.Reads.{IsAnswer, read_response-Serving}
use webfs.Http.{
  HttpSource, Request, Response, Client, header_get, get_method, new_request, with_range,
  after_send, after_request, read, get_meta,
}

module _ {W : Type 0} (client : Client W) where
  -- The server of a source has the file: it answers each request for a range of the source's URL
  -- as IsAnswer says, if it answers.
  abbrev pub IsServer : List ℕ → HttpSource → Type 0
  IsServer file cfg =
      (offset size : ℕ) (req : Request) (w : W)
      → offset + size < 2 ^ 63
      → req.url ≡ cfg.url
      → header_get client (codes "Range") req.header
        ≡ range_text (pos offset) (wrap64 (pos (offset + size) -ℤ pos 1))
      → (resp : Response) → (client.send req w).0 ≡ ok resp
      → IsAnswer file offset size resp

  range_header :
      (offset size : ℤ) (req : Request)
      → header_get client (codes "Range") (with_range client offset size req).header
        ≡ range_text offset (wrap64 (wrap64 (offset +ℤ size) -ℤ pos 1))
  unfolding with_range
  range_header offset size req =
      let key = client.canonical (codes "Range") in
      let same : text_beq key key ≡ true = (text_beq_iff key key).1 refl in
      rw (load-store key key _ req.header, same)

  new_request_url :
      (cfg : HttpSource) (method : Text) (w : W) (req : Request)
      → (new_request client cfg method w).0 ≡ ok req
      → req.url ≡ cfg.url
  unfolding new_request
  new_request_url cfg method w req = elim (Option-cases (client.request_error method cfg.url)) [
    | inl fine ↦
        rw (fine, new_request)
          (λ e. ap (λ r. elim r [ ok q ↦ q.url | err x ↦ [] | panics ↦ [] ]) (sym e))
    | inr (x, refused) ↦ rw (refused, new_request) (λ e. absurd (cc e))
  ]

  module _ (file : List ℕ) (cfg : HttpSource) (has : IsServer file cfg) (offset size : ℕ)
      (buf : List ℕ) (bounded : offset + size < 2 ^ 63) (room : size ≤ length buf) where
    after_send-Serving :
        (o : Result Response × W)
        → ((resp : Response) → o.0 ≡ ok resp → IsAnswer file offset size resp)
        → let out = after_send client (pos offset) (pos size) buf o in
          out.1 ≡ ok tt → ServesRead file offset size out.0 buf out.2
    unfolding after_send
    after_send-Serving (ok resp, w) answer =
        read_response-Serving file offset size buf room resp (answer resp refl)
    after_send-Serving (err e, w) answer = λ success. absurd (cc success)
    after_send-Serving (panics, w) answer = λ success. absurd (cc success)

    after_request-Serving :
        (o : Result Request × W)
        → ((req : Request) → o.0 ≡ ok req → req.url ≡ cfg.url)
        → let out = after_request client (pos offset) (pos size) buf o in
          out.1 ≡ ok tt → ServesRead file offset size out.0 buf out.2
    unfolding after_request with_range
    after_request-Serving (ok req, w) url =
        let end : wrap64 (pos offset +ℤ pos size) ≡ pos (offset + size) = ground arith in
        let header =
          range_header (pos offset) (pos size) req
          ∙ ap (λ e. range_text (pos offset) (wrap64 (e -ℤ pos 1))) end in
        after_send-Serving (client.send (with_range client (pos offset) (pos size) req) w) (
          has offset size (with_range client (pos offset) (pos size) req) w bounded (url req refl)
            header)
    after_request-Serving (err e, w) url = λ success. absurd (cc success)
    after_request-Serving (panics, w) url = λ success. absurd (cc success)

    read-Serving :
        (w : W)
        → let out = read client cfg (pos offset) (pos size) buf w in
          out.1 ≡ ok tt → ServesRead file offset size out.0 buf out.2
    unfolding read
    read-Serving w =
        let enough : ltb_ℤ (pos (length buf)) (pos size) ≡ false = ground arith in
        rw enough (
          after_request-Serving (new_request client cfg (get_method cfg) w)
            (new_request_url cfg (get_method cfg) w))

module _ (env : Env) (client : Client env.World) (sources : ℕ → HttpSource) where
  -- The environment whose adapters are HTTP adapters.
  abbrev pub http_env : Env
  http_env = record env {
    read = λ a. read client (sources a);
    get_meta = λ a. get_meta client (sources a);
  }

  pub http-Serves :
      (file : List ℕ) (a : ℕ) → IsServer client file (sources a) → Serves http_env file a
  http-Serves file a has offset size buf w bounded room =
      read-Serving client file (sources a) has offset size buf bounded room w

  pub http-KeepsBuffer : KeepsBuffer http_env
  http-KeepsBuffer a offset size buf w = length-read client offset size buf (sources a) w

  -- An inode whose pool holds HTTP adapters for sources of one file, with that file's bytes in its
  -- cache, on servers that answer range requests as IsAnswer says: for a file of fewer than 2^63
  -- bytes and a request that ends below 2^63, Read returns no bytes but those of the requested
  -- window, and leaves the inode in such a state.
  pub http_read-IsCorrect :
      (file : List ℕ) (offset size : ℕ) (n : Inode) (pool : AdapterPool) (w : env.World)
      → length file < 2 ^ 63
      → offset + size < 2 ^ 63
      → n.adapter_pool ≡ some pool
      → All (IsCoherent file) n.data_cache
      → All (λ a. IsServer client file (sources a)) (refs (members pool))
      → IsCorrect http_env file http-KeepsBuffer offset size
          (Inode.read http_env (pos offset) (pos size) n w)
  http_read-IsCorrect file offset size n pool w small fits has coherent servers =
      read-IsCorrect http_env file http-KeepsBuffer offset size small fits n w (record {
        coherent = coherent;
        serving = λ p e.
            let same : pool ≡ p = some-injective pool p (sym has ∙ e) in
            subst (λ (q : AdapterPool). All (Serves http_env file) (refs (members q))) same
              (All-map (refs (members pool)) (http-Serves file) servers);
      })

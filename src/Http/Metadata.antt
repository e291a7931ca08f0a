-- ===== src/Http/Metadata.antt =====
-- GetMeta of adapters/http.go under RefreshMeta of filesystem/inode.go.
use webfs.Base.{
  ℕ, ◌-◌, ◌^◌, ◌≤◌, ◌<◌, ◌≡◌, refl, ap, ◌∙◌, true, false, Option, none, some, ltb, leb, arith,
}
use webfs.Base.Int.{negsuc, to_u64}
use webfs.Base.Result.{ok}
use webfs.External.{Env, Attr, Time, FileMetadata, background}
use webfs.Pool.{AdapterPool, mark_usable}
use webfs.Inode.{Inode, set_meta, refresh_meta}
use webfs.Inode.Refresh.{refresh_meta_primary}
use webfs.Http.{
  HttpSource, Request, Response, Client, http_head, new_request, parsed, header_get, meta_of,
  after_head, head_request, get_meta,
}
use webfs.Http.Served.{http_env}
use webfs.Paths.{codes}

module _ (env : Env) (client : Client env.World) (sources : ℕ → HttpSource)
    (keeps_size : (atime mtime ctime : Option Time) (attr : Attr)
      → (env.set_times atime mtime ctime attr).size ≡ attr.size) where
  open env use {World}

  get_meta_ok :
      (cfg : HttpSource) (w w1 w2 : World) (req : Request) (resp : Response)
      → new_request client cfg http_head w ≡ (ok req, w1)
      → client.send req w1 ≡ (ok resp, w2)
      → 200 ≤ resp.status
      → resp.status < 300
      → (m : FileMetadata) × (m.size ≡ to_u64 resp.content_length)
        × (get_meta client cfg w ≡ (ok m, client.close_body resp w2))
  unfolding get_meta
  get_meta_ok cfg w w1 w2 req resp made sent low high =
      let low_test : ltb resp.status 200 ≡ false = ground arith in
      let high_test : leb 300 resp.status ≡ false = ground arith in
      (
        record {
          size = to_u64 resp.content_length;
          last_modified = parsed client (header_get client (codes "Last-Modified") resp.header);
          version = header_get client (codes "ETag") resp.header;
          ttl = none;
        },
        refl,
        (rw (made, head_request, sent, after_head, meta_of, low_test, high_test)),
      )

  -- Let the metadata of an inode be refreshed over HTTP, with a healthy primary whose server
  -- answers the HEAD request with a status between 200 and 299. Then the refresh succeeds, and the
  -- size of the attributes is the response's content length as an unsigned 64-bit number: for an
  -- unknown length, which is -1, the size is 2^64 - 1.
  pub refresh_size :
      (n : Inode) (pool : AdapterPool) (w w1 w2 : World) (req : Request) (resp : Response)
      → n.adapter_pool ≡ some pool
      → pool.primary.is_healthy ≡ true
      → new_request client
          (sources pool.primary.adapter)
          http_head
          (mark_usable (background (http_env env client sources)) pool.backups w).1
        ≡ (ok req, w1)
      → client.send req w1 ≡ (ok resp, w2)
      → 200 ≤ resp.status
      → resp.status < 300
      → let (r, n', _) = refresh_meta (http_env env client sources) n w in
        (r ≡ ok tt)
        × (n'.attr.size ≡ to_u64 resp.content_length)
        × (resp.content_length ≡ negsuc 0 → n'.attr.size ≡ 2 ^ 64 - 1)
  unfolding set_meta
  refresh_size n pool w w1 w2 req resp has healthy made sent low high =
      let (m, size_eq, reported) =
        get_meta_ok (sources pool.primary.adapter) _ w1 w2 req resp made sent low high in
      let e =
        refresh_meta_primary (http_env env client sources) n pool w _ m has healthy reported in
      let sized =
        keeps_size none m.last_modified none (record n.attr { size = m.size }) ∙ size_eq in
      let unknown : resp.content_length ≡ negsuc 0 → to_u64 resp.content_length ≡ 2 ^ 64 - 1 =
        λ u. ap to_u64 u in
      rw e ((refl, sized, λ u. sized ∙ unknown u))

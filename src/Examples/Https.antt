-- ===== src/Examples/Https.antt =====
-- An HTTP server that sends the whole file, whatever is asked of it, and one that breaks off; a
-- registry, and decoders.
use webfs.Base.{
  ℕ, ◌-◌, ◌+◌, ◌^◌, ◌≡◌, ◌≢◌, refl, subst, inl, inr, Option, none, some, List, [], ◌∷◌, ◌↔◌, arith,
  length, All,
}
use webfs.Base.Int.{ℤ, pos, negsuc, to_u64}
use webfs.Base.Maps.{text_eq}
use webfs.Base.Result.{ok, err, panics, external, unexpected_eof, ok-injective}
use webfs.External.{Attr, Time, FileSource}
use webfs.Paths.{codes}
use webfs.Inode
use webfs.Inode.{refresh_meta}
use webfs.Inode.Reads.{IsCorrect, Serves, IsServing}
use webfs.Inode.Progress.{read_available}
use webfs.Pool.Failover.{refs, members}
use webfs.Http
use webfs.Http.{
  HttpSource, Response, Client, read_response, http_head, new_request, set_all, skip_to, fill,
  get_method,
}
use webfs.Http.Stream.{discard, read_full}
use webfs.Http.Range.{range_text, parse_range}
use webfs.Http.Range.{parse_range-range_text}
use webfs.Http.Reads.{IsAnswer, read_truncated}
use webfs.Http.Served.{http_env, http-Serves, http-KeepsBuffer, http_read-IsCorrect}
use webfs.Http.Metadata.{refresh_size}
use webfs.Adapters.{Registry}
use webfs.Requests.{Decoder, NodeRequestDto, SourceConfigDto, unmarshal_sources}
use webfs.Requests.Sources.{AreSources, unmarshal_sources_iff}
use webfs.Examples.Server.{served_file, server}
use webfs.Examples.Reads.{two_members, two_sources}

abbrev whole : Response
whole = record {
  status = 200;
  status_text = codes "200 OK";
  content_length = pos 5;
  header = [];
  body = record { bytes = served_file; end = none };
}

abbrev pub client : Client ℕ
client = record {
  canonical = λ t. t;
  request_error = λ method url. none;
  visit = λ m w. (m, w);
  send = λ req w. (ok whole, w + 1);
  close_body = λ resp w. w;
  parse_time = λ t. none;
  unmarshal_source = λ t. ok (record { url = t; method = none; headers = [] });
}

abbrev pub source : ℕ → HttpSource
source a = record { url = codes "http://files/a"; method = none; headers = [] }

whole-IsAnswer : (o s : ℕ) (resp : Response) → ok whole ≡ ok resp → IsAnswer served_file o s resp
whole-IsAnswer o s resp e =
    subst (IsAnswer served_file o s) (ok-injective e) (inr (inl (refl, refl)))

http_read-IsCorrect_example :
    IsCorrect
      (http_env server client source)
      served_file
      (http-KeepsBuffer server client source)
      1
      3
      (Inode.read (http_env server client source) (pos 1) (pos 3) two_sources 0)
http_read-IsCorrect_example =
    http_read-IsCorrect server client source served_file 1 3 two_sources two_members 0 (omega arith)
      (omega arith) refl tt
      (
        (λ o s req w h u r resp e. whole-IsAnswer o s resp e),
        ((λ o s req w h u r resp e. whole-IsAnswer o s resp e), tt),
      )

-- With a buffer of three bytes the adapters succeed.
pub http_works :
    (a : ℕ) (buf : List ℕ) (w : ℕ)
    → length buf ≡ 3
    → ((http_env server client source).read a (pos 1) (pos 3) buf w).1 ≡ ok tt
unfolding Http.read read_response skip_to fill discard read_full new_request get_method set_all
http_works a [] w h = absurd (omega (arith, h))
http_works a (x ∷ []) w h = absurd (omega (arith, h))
http_works a (x ∷ y ∷ []) w h = absurd (omega (arith, h))
http_works a (x ∷ y ∷ z ∷ []) w h = refl
http_works a (x ∷ y ∷ z ∷ b ∷ rest) w h = absurd (omega (arith, h))

pub http_calm :
    (a : ℕ) (buf : List ℕ) (w : ℕ)
    → length buf ≡ 3
    → ((http_env server client source).read a (pos 1) (pos 3) buf w).1 ≢ panics
http_calm a buf w h panicked = absurd (cc (http_works a buf w h, panicked))

pub All-http-Serves : (l : List ℕ) → All (Serves (http_env server client source) served_file) l
All-http-Serves [] = tt
All-http-Serves (a ∷ rest) = (
  http-Serves server client source served_file a
      (λ o s req w h u r resp e. whole-IsAnswer o s resp e),
  All-http-Serves rest,
)

http-IsServing : IsServing (http_env server client source) served_file two_sources
http-IsServing = record { coherent = tt; serving = λ pool e. All-http-Serves (refs (members pool)) }

read_available_example :
    (Inode.read (http_env server client source) (pos 1) (pos 3) two_sources 0).0
    ≡ ok (20 ∷ 30 ∷ 40 ∷ [])
read_available_example =
    read_available (http_env server client source) served_file
      (http-KeepsBuffer server client source) 1 3 (omega arith) (omega arith) (λ w. refl) http_calm
      7 (http_works 7) two_members two_sources 0 refl http-IsServing (inr (inl (refl, refl)))

abbrev broken : Response
broken = record whole { status = 206; body = record { bytes = 20 ∷ []; end = some unexpected_eof } }

read_truncated_example :
    (rest : List ℕ) × (read_response (pos 1) (pos 3) (0 ∷ 0 ∷ 0 ∷ []) broken
      ≡ (pos 1, ok tt, 20 ∷ rest))
read_truncated_example =
    read_truncated 1 3 (20 ∷ []) (0 ∷ 0 ∷ 0 ∷ []) broken (omega arith) (omega arith) (omega arith)
      refl refl

parse_range-range_text_example : parse_range (range_text (pos 1) (pos 30)) ≡ some (1, 30)
parse_range-range_text_example = parse_range-range_text 1 30

-- A server that does not know the length of the file.
abbrev endless : Client ℕ
endless = record client { send = λ req w. (ok (record whole { content_length = negsuc 0 }), w + 1) }

server-keeps_size :
    (atime mtime ctime : Option Time) (attr : Attr)
    → (server.set_times atime mtime ctime attr).size ≡ attr.size
server-keeps_size atime none ctime attr = refl
server-keeps_size atime (some t) ctime attr = refl

refresh_size_example :
    let (r, n, _) = refresh_meta (http_env server endless source) two_sources 0 in
    (r ≡ ok tt)
    × (n.attr.size ≡ to_u64 (negsuc 0))
    × (◌≡◌ {A = ℤ} (negsuc 0) (negsuc 0) → n.attr.size ≡ 2 ^ 64 - 1)
unfolding new_request set_all
refresh_size_example =
    refresh_size server endless source server-keeps_size two_sources two_members 0 _ _
      (record { method = http_head; url = codes "http://files/a"; header = [] })
      (record whole { content_length = negsuc 0 }) refl refl refl refl (omega arith) (omega arith)

-- A decoder for a file with two sources, whose raw texts are their types.
abbrev pub decoder : Decoder ℕ
decoder = record {
  type_of = λ raw. ok raw;
  file_request = λ raw. err (external 4);
  dir_request = λ raw. err (external 4);
  raw_sources = λ raw. ok (codes "http" ∷ codes "file" ∷ []);
  new_uuid = λ w. (codes "u", w);
}

abbrev two_dtos : List SourceConfigDto
two_dtos =
    record { kind = codes "http"; priority = some (pos 8) }
    ∷ record { kind = codes "file"; priority = none }
    ∷ []

abbrev two_files : List FileSource
two_files =
    record { provider = 3; config = codes "http"; priority = pos 8 }
    ∷ record { provider = 4; config = codes "file"; priority = pos 1 }
    ∷ []

abbrev two_types : Registry
two_types = (codes "http", 3) ∷ (codes "file", 4) ∷ []

unmarshal_sources_iff_example :
    (unmarshal_sources server decoder two_dtos [] two_types ≡ ok two_files)
    ↔ AreSources decoder two_types two_dtos 0 (codes "http" ∷ codes "file" ∷ []) two_files
unmarshal_sources_iff_example =
    unmarshal_sources_iff server decoder two_types two_dtos [] (codes "http" ∷ codes "file" ∷ [])
      two_files refl

-- A nodes file with one directory.
abbrev pub dir_dto : NodeRequestDto
dir_dto = record {
  path = codes "docs";
  kind = codes "dir";
  uuid = none;
  size = none;
  atime = none;
  mtime = none;
  ctime = none;
  perms = none;
  owner_uid = none;
  owner_gid = none;
  blksize = none;
}

abbrev pub dir_decoder : Decoder ℕ
dir_decoder = record decoder { type_of = λ raw. ok (codes "dir"); dir_request = λ raw. ok dir_dto }

-- ===== src/Requests.antt =====
-- requests/dto.go and requests/unmarshal.go: the requests that a nodes file holds. The parsers of
-- encoding/json and google/uuid are the record `Decoder`; `none` is a nil pointer of a DTO.
pub mod Sources
use webfs.Base.{ℕ, suc, ◌+◌, Option, none, some, List, [], ◌∷◌, get_elem?}
use webfs.Base.Int.{ℤ, pos}
use webfs.Base.Maps.{Text}
use webfs.Base.Result.{Result, Error, ok, err, panics, ◌>>=◌}
use webfs.External.{Env, Time, FileSource}
use webfs.Fs.{NodeRequest, FileCreateRequest}
use webfs.Adapters.{Registry, get_provider}

-- NodeRequestDTO
pub record NodeRequestDto : Type 0 where
  pub path : Text
  pub kind : Text
  pub uuid : Option Text
  pub size : Option ℕ
  pub atime : Option Time
  pub mtime : Option Time
  pub ctime : Option Time
  pub perms : Option ℕ
  pub owner_uid : Option ℕ
  pub owner_gid : Option ℕ
  pub blksize : Option ℕ

-- SourceConfigDTO
pub record SourceConfigDto : Type 0 where
  pub kind : Text
  pub priority : Option ℤ

-- FileRequestDTO
pub record FileRequestDto : Type 0 where
  pub node : NodeRequestDto
  pub sources : List SourceConfigDto

-- What is outside: json.Unmarshal of a text into each of the structs that the code declares, and
-- uuid.New().String().
pub record Decoder (W : Type 0) : Type 0 where
  pub type_of : Text → Result Text
  pub file_request : Text → Result FileRequestDto
  pub dir_request : Text → Result NodeRequestDto
  pub raw_sources : Text → Result (List Text)
  pub new_uuid : W → Text × W

-- valueOrDefault
abbrev pub value_or_default {ℓ} : {A : Type ℓ} → Option A → A → A
value_or_default none default = default
value_or_default (some a) default = a

-- The source that unmarshalSources makes of the raw source at index `i`. The DTO's list is indexed
-- last, and panics if it is too short.
module _ {W : Type 0} (decoder : Decoder W) (registry : Registry)
    (dtos : List SourceConfigDto) where
  with_priority : ℕ → Text → ℕ → Option SourceConfigDto → Result FileSource
  with_priority i raw provider none = panics
  with_priority i raw provider (some dto) = ok (record {
    provider = provider;
    config = raw;
    priority = elim dto.priority [ none ↦ pos i | some given ↦ given ];
  })

  unfoldable pub source_at : ℕ → Text → Result FileSource
  unfolding with_priority
  source_at i raw = do
    kind ← decoder.type_of raw
    provider ← get_provider kind registry
    with_priority i raw provider (get_elem? dtos i)

  -- The loop of unmarshalSources, from index `i` on
  unfoldable pub sources_from : ℕ → List Text → Result (List FileSource)
  sources_from i [] = ok []
  sources_from i (raw ∷ rest) = do
    source ← source_at i raw
    sources ← sources_from (suc i) rest
    ok (source ∷ sources)

module _ (env : Env) (decoder : Decoder env.World) where
  open env use {now, World}
  open decoder use {type_of, file_request, dir_request, raw_sources, new_uuid}

  -- GetNodeType
  unfoldable pub get_node_type : Text → Result Text
  get_node_type raw = type_of raw

  -- unmarshalSources
  unfoldable pub unmarshal_sources :
      List SourceConfigDto → Text → Registry → Result (List FileSource)
  unfolding sources_from
  unmarshal_sources dtos raw registry = raw_sources raw >>= sources_from decoder registry dtos 0

  -- convertNodeDTO; the UUID is made whether it is used or not
  unfoldable pub convert_node_dto : NodeRequestDto → World → NodeRequest × World
  convert_node_dto dto w =
      let (t, w1) = now w in
      let (fresh, w2) = new_uuid w1 in
      (
        record {
          path = dto.path;
          kind = dto.kind;
          uuid = value_or_default dto.uuid fresh;
          size = value_or_default dto.size 0;
          atime = value_or_default dto.atime t;
          mtime = value_or_default dto.mtime t;
          ctime = value_or_default dto.ctime t;
          perms = value_or_default dto.perms 0o644;
          owner_uid = value_or_default dto.owner_uid 1000;
          owner_gid = value_or_default dto.owner_gid 1000;
          blksize = value_or_default dto.blksize 4096;
        },
        w2,
      )

  with_sources : NodeRequest → Result (List FileSource) → Result FileCreateRequest
  with_sources node (ok sources) = ok (record { node = node; sources = sources })
  with_sources node (err e) = err e
  with_sources node panics = panics

  file_of : Result FileRequestDto → Text → Registry → World → Result FileCreateRequest × World
  unfolding convert_node_dto with_sources unmarshal_sources
  file_of (ok dto) raw registry w =
      let (node, w') = convert_node_dto dto.node w in
      (with_sources node (unmarshal_sources dto.sources raw registry), w')
  file_of (err e) raw registry w = (err e, w)
  file_of panics raw registry w = (panics, w)

  -- UnmarshalFileRequest
  unfoldable pub unmarshal_file_request : Text → Registry → World → Result FileCreateRequest × World
  unfolding file_of
  unmarshal_file_request raw registry w = file_of (file_request raw) raw registry w

  dir_of : Result NodeRequestDto → World → Result NodeRequest × World
  unfolding convert_node_dto
  dir_of (ok dto) w = let (node, w') = convert_node_dto dto w in (ok node, w')
  dir_of (err e) w = (err e, w)
  dir_of panics w = (panics, w)

  -- UnmarshalDirRequest
  unfoldable pub unmarshal_dir_request : Text → World → Result NodeRequest × World
  unfolding dir_of
  unmarshal_dir_request raw w = dir_of (dir_request raw) w

-- ===== src/Adapters.antt =====
-- adapters/registry.go and adapters/builtins.go. A provider is a reference, as in External; the
-- reference of the HTTPProvider that RegisterHTTP makes is the argument `http`. A method holds the
-- registry's lock for its body. The JSON parser is an argument.
pub mod Laws
use webfs.Base.{ℕ, Option, none, some, List, [], ◌∷◌, if◌then◌else◌}
use webfs.Base.Maps.{Map, Text, load, store, text_eq, text_beq}
use webfs.Base.Result.{Result, Error, ok, err, panics, no_provider, ◌>>=◌}
use webfs.External.{Env}
use webfs.Paths.{codes}

-- The state of a Registry is its map of providers.
abbrev pub Registry : Type 0
Registry = Map Text ℕ

-- NewRegistry
abbrev pub new_registry : Registry
new_registry = []

-- Register: a type that is there already keeps its provider.
unfoldable pub register : Text → ℕ → Registry → Registry
register kind provider r = elim (load kind r) [ none ↦ store kind provider r | some p ↦ r ]

abbrev pub provider_of : Text → Option ℕ → Result ℕ
provider_of kind none = err (no_provider kind)
provider_of kind (some p) = ok p

-- GetProvider
unfoldable pub get_provider : Text → Registry → Result ℕ
get_provider kind r = provider_of kind (load kind r)

abbrev pub http_type : Text
http_type = codes "http"

-- adapters/http.go, RegisterHTTP
abbrev pub register_http : ℕ → Registry → Registry
register_http http r = register http_type http r

-- The loop of RegisterBuiltins: a key that is no built-in type is passed over.
unfoldable pub register_each : ℕ → List Text → Registry → Registry
unfolding register
register_each http [] r = r
register_each http (key ∷ keys) r =
    register_each http keys (if text_beq key http_type then register_http http r else r)

abbrev pub or_all : List Text → List Text
or_all [] = http_type ∷ []
or_all (key ∷ keys) = key ∷ keys

-- RegisterBuiltins
unfoldable pub register_builtins : ℕ → List Text → Registry → Registry
unfolding register_each
register_builtins http keys r = register_each http (or_all keys) r

module _ (env : Env) (type_of : Text → Result Text) where
  open env use {World}

  adapter_of : Text → Result ℕ → World → Result ℕ × World
  adapter_of raw (ok provider) w = env.new_adapter provider raw w
  adapter_of raw (err e) w = (err e, w)
  adapter_of raw panics w = (panics, w)

  -- Registry.NewAdapter
  unfoldable pub new_adapter : Text → Registry → World → Result ℕ × World
  unfolding adapter_of get_provider
  new_adapter raw r w = adapter_of raw (type_of raw >>= λ kind. get_provider kind r) w

-- ===== src/Requests/Sources.antt =====
-- requests/unmarshal.go, unmarshalSources: what the sources of a request are.
use webfs.Base.{
  ℕ, suc, ◌≡◌, refl, ap, sym, Option, none, some, List, [], ◌∷◌, get_elem?, ◌↔◌, subst, ◌∙◌,
}
use webfs.Base.Int.{ℤ, pos}
use webfs.Base.Maps.{Text, load, text_eq}
use webfs.Base.Result.{Result, ok, err, panics, ◌>>=◌, >>=-eq-ok, ok-injective}
use webfs.External.{Env, FileSource}
use webfs.Adapters.{Registry, provider_of, get_provider}
use webfs.Requests.{
  SourceConfigDto, Decoder, with_priority, source_at, sources_from, unmarshal_sources,
}

module _ {W : Type 0} (decoder : Decoder W) (registry : Registry)
    (dtos : List SourceConfigDto) where
  -- The priority that is given, or else the index.
  abbrev pub IsPriority : ℕ → Option ℤ → ℤ → Type 0
  IsPriority i none priority = priority ≡ pos i
  IsPriority i (some given) priority = priority ≡ given

  -- The source for the raw source at index i: its type's provider in the registry, the raw text as
  -- the configuration, and the DTO's priority or else the index.
  abbrev pub IsSource : ℕ → Text → FileSource → Type 0
  IsSource i raw source =
      (kind : Text) × (dto : SourceConfigDto) × (provider : ℕ) × (priority : ℤ) × (decoder.type_of
          raw
        ≡ ok kind)
      × (load kind registry ≡ some provider)
      × (get_elem? dtos i ≡ some dto)
      × IsPriority i dto.priority priority
      × (source ≡ record { provider = provider; config = raw; priority = priority })

  -- One source for each raw source, in order, from index i on.
  abbrev pub AreSources : ℕ → List Text → List FileSource → Type 0
  AreSources i [] [] = Unit
  AreSources i [] (source ∷ sources) = ⊥
  AreSources i (raw ∷ raws) [] = ⊥
  AreSources i (raw ∷ raws) (source ∷ sources) =
      IsSource i raw source × AreSources (suc i) raws sources

  source_at_to :
      (i : ℕ) (raw : Text) (source : FileSource)
      → IsSource i raw source
      → source_at decoder registry dtos i raw ≡ ok source
  unfolding source_at get_provider with_priority
  source_at_to i raw source (kind, dto, provider, p, typed, registered, indexed, given, e) =
      rw (typed, registered, indexed, with_priority)
        (ap (λ x. ok (record { provider = provider; config = raw; priority = x }))
            (chosen dto.priority p given)
          ∙ ap ok (sym e))
    where
      chosen :
          (o : Option ℤ) (p : ℤ)
          → IsPriority i o p
          → elim o [ none ↦ pos i | some given ↦ given ] ≡ p
      chosen none p h = sym h
      chosen (some q) p h = sym h

  chosen-IsPriority :
      (i : ℕ) (o : Option ℤ) → IsPriority i o (elim o [ none ↦ pos i | some given ↦ given ])
  chosen-IsPriority i none = refl
  chosen-IsPriority i (some q) = refl

  source_at_of :
      (i : ℕ) (raw : Text) (source : FileSource)
      → source_at decoder registry dtos i raw ≡ ok source
      → IsSource i raw source
  unfolding source_at get_provider with_priority
  source_at_of i raw source = typed (decoder.type_of raw) refl
    where
      indexed :
          (kind : Text) (provider : ℕ) (o : Option SourceConfigDto)
          → decoder.type_of raw ≡ ok kind
          → load kind registry ≡ some provider
          → get_elem? dtos i ≡ o
          → with_priority decoder registry dtos i raw provider o ≡ ok source
          → IsSource i raw source
      indexed kind provider none t r d e = absurd (cc e)
      indexed kind provider (some dto) t r d e =
          (kind, dto, provider, _, t, r, d, chosen-IsPriority i dto.priority, sym (ok-injective e))

      registered :
          (kind : Text) (o : Option ℕ)
          → decoder.type_of raw ≡ ok kind
          → load kind registry ≡ o
          → (provider_of kind o >>= λ p.
              with_priority decoder registry dtos i raw p (get_elem? dtos i))
            ≡ ok source
          → IsSource i raw source
      registered kind none t r e = absurd (cc e)
      registered kind (some p) t r e = indexed kind p (get_elem? dtos i) t r refl e

      typed :
          (o : Result Text)
          → decoder.type_of raw ≡ o
          → (o >>= λ kind. get_provider kind registry >>= λ p.
              with_priority decoder registry dtos i raw p (get_elem? dtos i))
            ≡ ok source
          → IsSource i raw source
      typed (ok kind) t e = registered kind (load kind registry) t refl e
      typed (err x) t e = absurd (cc e)
      typed panics t e = absurd (cc e)

  sources_from_to :
      (i : ℕ) (raws : List Text) (sources : List FileSource)
      → AreSources i raws sources
      → sources_from decoder registry dtos i raws ≡ ok sources
  unfolding sources_from
  sources_from_to i [] [] h = refl
  sources_from_to i [] (s ∷ sources) h = absurd h
  sources_from_to i (raw ∷ raws) [] h = absurd h
  sources_from_to i (raw ∷ raws) (s ∷ sources) (h, hs) =
      rw (source_at_to i raw s h, sources_from_to (suc i) raws sources hs)

  sources_from_of :
      (i : ℕ) (raws : List Text) (sources : List FileSource)
      → sources_from decoder registry dtos i raws ≡ ok sources
      → AreSources i raws sources
  unfolding sources_from
  sources_from_of i [] [] e = tt
  sources_from_of i [] (s ∷ sources) e = cc e
  sources_from_of i (raw ∷ raws) sources e =
      let (s, here, e1) = >>=-eq-ok (source_at decoder registry dtos i raw) _ e in
      let (rest, there, e2) = >>=-eq-ok (sources_from decoder registry dtos (suc i) raws) _ e1 in
      subst (AreSources i (raw ∷ raws)) (ok-injective e2)
        (source_at_of i raw s here, sources_from_of (suc i) raws rest there)

-- unmarshalSources gives exactly one source for each raw source, in order: with the provider that
-- is registered for its type, the raw text, and the priority that is given or else the index. It
-- gives these sources whenever each raw source has a type, a provider and a DTO, and no others.
pub unmarshal_sources_iff :
    (env : Env) (decoder : Decoder env.World) (registry : Registry) (dtos : List SourceConfigDto)
    (raw : Text) (raws : List Text) (sources : List FileSource)
    → decoder.raw_sources raw ≡ ok raws
    → (unmarshal_sources env decoder dtos raw registry ≡ ok sources)
      ↔ AreSources decoder registry dtos 0 raws sources
unfolding unmarshal_sources
unmarshal_sources_iff env decoder registry dtos raw raws sources e = rw e (
    (
      sources_from_of decoder registry dtos 0 raws sources,
      sources_from_to decoder registry dtos 0 raws sources,
    ))

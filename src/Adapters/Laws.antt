-- ===== src/Adapters/Laws.antt =====
-- adapters/registry.go: which provider a type has.
use webfs.Base.{
  ℕ, ◌≡◌, ap, sym, ◌∙◌, inl, inr, Option, none, some, List, [], ◌∷◌, arith, if◌then◌else◌,
  Bool-cases, Option-cases,
}
use webfs.Base.Maps.{Text, load, text_eq, text_beq, text_beq_iff, load-store}
use webfs.Adapters.{Registry, new_registry, register, provider_of, get_provider}

-- A provider that a registration leaves behind: the one that was there, else the new one.
abbrev pub first_of : Option ℕ → ℕ → Option ℕ
first_of none provider = some provider
first_of (some p) provider = some p

load-register :
    (kind other : Text) (provider : ℕ) (r : Registry)
    → load other (register kind provider r)
      ≡ (if text_beq kind other then first_of (load other r) provider else load other r)
unfolding register
load-register kind other provider r = elim (Option-cases (load kind r)) [
  | inl free ↦ rw (free, register) (load-store kind other provider r ∙ same free)
  | inr (p, taken) ↦ rw (taken, register) (sym (kept p taken))
]
  where
    same :
        load kind r ≡ none
        → (if text_beq kind other then some provider else load other r)
          ≡ (if text_beq kind other then first_of (load other r) provider else load other r)
    same free = elim (Bool-cases (text_beq kind other)) [
      | inl e ↦
          let k : kind ≡ other = (text_beq_iff kind other).0 e in
          let free' : load other r ≡ none = ap (λ t. load t r) (sym k) ∙ free in rw (e, free')
      | inr e ↦ rw e
    ]

    kept :
        (p : ℕ)
        → load kind r ≡ some p
        → (if text_beq kind other then first_of (load other r) provider else load other r)
          ≡ load other r
    kept p taken = elim (Bool-cases (text_beq kind other)) [
      | inl e ↦
          let k : kind ≡ other = (text_beq_iff kind other).0 e in
          let taken' : load other r ≡ some p = ap (λ t. load t r) (sym k) ∙ taken in rw (e, taken')
      | inr e ↦ rw e
    ]

-- The provider that GetProvider finds for a type after a list of registrations.
abbrev pub first_for : Text → List (Text × ℕ) → Option ℕ
first_for kind [] = none
first_for kind ((k, p) ∷ rest) =
    let later = first_for kind rest in if text_beq k kind then some p else later

unfoldable pub register_all : List (Text × ℕ) → Registry → Registry
register_all [] r = r
register_all ((k, p) ∷ rest) r = register_all rest (register k p r)

abbrev or_else : Option ℕ → Option ℕ → Option ℕ
or_else none b = b
or_else (some a) b = some a

load-register_all :
    (kind : Text) (l : List (Text × ℕ)) (r : Registry)
    → load kind (register_all l r) ≡ or_else (load kind r) (first_for kind l)
unfolding register_all
load-register_all kind [] r = ground arith
load-register_all kind ((k, p) ∷ rest) r =
    load-register_all kind rest (register k p r) ∙ ground (arith, load-register k kind p r)

-- However registrations are ordered, a type has the provider that was registered first under it;
-- a type without a registration is an error that names it.
pub get_provider-register_all :
    (kind : Text) (l : List (Text × ℕ))
    → get_provider kind (register_all l new_registry) ≡ provider_of kind (first_for kind l)
unfolding get_provider load
get_provider-register_all kind l = ap (provider_of kind) (load-register_all kind l [])

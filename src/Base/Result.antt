-- ===== src/Base/Result.antt =====
-- What a Go call returns: a value with a nil error, an error, or a panic of the runtime.
use webfs.Base.Maps.{Text}
use Prim.Native.Nat.{ℕ}
use mathlib.Core.Path.{◌≡◌, refl}

pub data Error : Type 0 where
  -- filesystem/inode.go, ErrNoAdapters
  no_adapters : Error
  -- filesystem/node.go
  nil_inode : Error
  deleted_node detached_node : Text → Error
  -- filesystem/fs.go
  file_exists : Text → Error
  no_valid_adapters : Error
  node_not_found : ℕ → Error
  -- config
  unknown_extension : Text → Error
  -- adapters/http.go; a wrapped error is the argument
  buffer_too_small : Error
  http_status : ℕ → Text → Error
  skip_failed read_failed : Error → Error
  skipped : ℕ → Error
  read_only : Error
  -- adapters/registry.go
  no_provider : Text → Error
  -- Go's package io
  eof unexpected_eof : Error
  -- an error made outside of the repository
  external : ℕ → Error

pub data Result {ℓ} (A : Type ℓ) : Type ℓ where
  ok : A → Result A
  err : Error → Result A
  panics : Result A

infixl 5 ◌>>=◌
abbrev pub ◌>>=◌ {ℓ κ} : {A : Type ℓ} {B : Type κ} → Result A → (A → Result B) → Result B
ok a >>= f = f a
err e >>= f = err e
panics >>= f = panics

pub ok-injective {ℓ} : {A : Type ℓ} {a b : A} → ok a ≡ ok b → a ≡ b
ok-injective e = cc e

-- A step that succeeded, taken apart.
module _ {ℓ κ} {A : Type ℓ} {B : Type κ} {result : B} where
  -- A chain that ends well: its first step gave a value, and the rest went on with it.
  pub >>=-eq-ok :
      (first : Result A) (rest : A → Result B)
      → (first >>= rest) ≡ ok result
      → (value : A) × (first ≡ ok value) × (rest value ≡ ok result)
  >>=-eq-ok panics rest ended = absurd (cc ended)
  >>=-eq-ok (err x) rest ended = absurd (cc ended)
  >>=-eq-ok (ok value) rest ended = (value, refl, ended)

-- ===== src/Base/Maps.antt =====
-- Go maps and xsync maps as association lists with one entry for each key.
use mathlib.Core.Path.{◌≡◌, refl}
use mathlib.Core.Logic.{◌↔◌}
use mathlib.Core.Bool.{Bool, true, false, ◌&&◌}
use mathlib.Core.Option.{Option, none, some}
use mathlib.Core.List.{List, [], ◌∷◌}
use native.Mathlib.Omega.{arith}
use Prim.Native.Nat.{ℕ}
use webfs.Base.Tests.{nat_beq, nat_beq_iff, if◌then◌else◌}

-- Texts are lists of byte values; `codes` in webfs.Paths reads a literal.
abbrev pub Text : Type 0
Text = List ℕ

abbrev pub Map {ℓ κ} : Type ℓ → Type κ → Type (ℓ ⊔ κ)
Map K V = List (K × V)

abbrev pub text_beq : Text → Text → Bool
text_beq (c ∷ s) (d ∷ t) = nat_beq c d && text_beq s t
text_beq (c ∷ s) [] = false
text_beq [] (d ∷ t) = false
text_beq [] [] = true

pub text_beq_iff : (s t : Text) → (text_beq s t ≡ true) ↔ (s ≡ t)
text_beq_iff (c ∷ s) (d ∷ t) = ground (arith, text_beq_iff s t)
text_beq_iff (c ∷ s) [] = ground arith
text_beq_iff [] (d ∷ t) = ground arith
text_beq_iff [] [] = ground arith

-- What can be the key of a Go map.
pub record Key {ℓ} (K : Type ℓ) : Type ℓ where
  pub same_key : K → K → Bool
  pub same_key_iff : (i j : K) → (same_key i j ≡ true) ↔ (i ≡ j)

instance abbrev pub text_eq : Key Text
text_eq = record { same_key = text_beq; same_key_iff = text_beq_iff }

instance abbrev pub nat_eq : Key ℕ
nat_eq = record { same_key = nat_beq; same_key_iff = nat_beq_iff }

module _ {ℓ κ} {K : Type ℓ} {V : Type κ} ⦃e : Key K⦄ where
  unfoldable pub load : K → Map K V → Option V
  load k [] = none
  load k ((j, v) ∷ m) = if e.same_key j k then some v else load k m

  unfoldable pub delete : K → Map K V → Map K V
  delete k [] = []
  delete k ((j, v) ∷ m) = let rest = delete k m in if e.same_key j k then rest else (j, v) ∷ rest

  -- The entry of an existing key is overwritten in place; a new key goes to the end.
  unfoldable pub store : K → V → Map K V → Map K V
  store k v [] = (k, v) ∷ []
  store k v ((j, w) ∷ m) = if e.same_key j k then (k, v) ∷ m else (j, w) ∷ store k v m

  pub load-delete :
      (k j : K) (m : Map K V) → load j (delete k m) ≡ (if e.same_key k j then none else load j m)
  unfolding load delete
  load-delete k j [] = ground arith
  load-delete k j ((i, v) ∷ m) =
      ground (arith, load-delete k j m, e.same_key_iff i k, e.same_key_iff i j, e.same_key_iff k j)

  pub load-store :
      (k j : K) (v : V) (m : Map K V)
      → load j (store k v m) ≡ (if e.same_key k j then some v else load j m)
  unfolding load store
  load-store k j v [] = refl
  load-store k j v ((i, w) ∷ m) =
      ground (arith, load-store k j v m, e.same_key_iff i k, e.same_key_iff i j, e.same_key_iff k j)

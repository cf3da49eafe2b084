-- ===== src/Base/Dict.antt =====
-- A Python dict in insertion order: an association list whose keys do not repeat.
use mathlib.Core.Path.{◌≡◌, refl}
use mathlib.Core.Bool.{Bool, true, ◌&&◌}
use mathlib.Core.Option.{Option, none, some}
use mathlib.Core.List.{List, [], ◌∷◌}
use native.Mathlib.Omega.{arith}
use pc_platform_validation_t.Base.Tests.{if◌then◌else◌}
use pc_platform_validation_t.Base.Equality.{Eq, ◌==◌, ==_iff, nat_eq, string_eq, option_eq}
use pc_platform_validation_t.Base.Lists.{length}

abbrev pub Dict {ℓ κ} : Type ℓ → Type κ → Type (ℓ ⊔ κ)
Dict K V = List (K × V)

module _ {ℓ κ} {K : Type ℓ} {V : Type κ} ⦃e : Eq K⦄ where
  -- `d.get(k)`
  abbrev pub lookup : K → Dict K V → Option V
  lookup k [] = none
  lookup k ((j, v) ∷ d) = if k == j then some v else lookup k d

  -- `d[k] = v`
  abbrev pub insert : K → V → Dict K V → Dict K V
  insert k v [] = (k, v) ∷ []
  insert k v ((j, w) ∷ d) = if k == j then (j, v) ∷ d else (j, w) ∷ insert k v d

  pub lookup-insert :
      (k j : K) (v : V) (d : Dict K V)
      → lookup j (insert k v d) ≡ (if j == k then some v else lookup j d)
  lookup-insert k j v [] = refl
  lookup-insert k j v ((i, w) ∷ d) =
      ground (arith, ==_iff k i, ==_iff j k, ==_iff j i, lookup-insert k j v d)

  -- `d.get(k, default)`
  abbrev pub lookup_or : K → V → Dict K V → V
  lookup_or k v d = elim (lookup k d) [ none ↦ v | some w ↦ w ]

abbrev pub keys {ℓ κ} : {K : Type ℓ} {V : Type κ} → Dict K V → List K
keys [] = []
keys ((k, v) ∷ d) = k ∷ keys d

abbrev pub values {ℓ κ} : {K : Type ℓ} {V : Type κ} → Dict K V → List V
values [] = []
values ((k, v) ∷ d) = v ∷ values d

-- No key stands twice.
abbrev pub IsDict {ℓ κ} : {K : Type ℓ} {V : Type κ} → ⦃e : Eq K⦄ → Dict K V → Type κ
IsDict [] = Unit
IsDict ((k, v) ∷ d) = (lookup k d ≡ none) × IsDict d

module _ {ℓ κ} {K : Type ℓ} {V : Type κ} ⦃e : Eq K⦄ where
  pub insert-IsDict : (k : K) (v : V) (d : Dict K V) → IsDict d → IsDict (insert k v d)
  insert-IsDict k v [] h = (refl, tt)
  insert-IsDict k v ((j, w) ∷ d) h =
      ground (arith, ==_iff k j, ==_iff j k, insert-IsDict k v d h.1, lookup-insert k j v d)

  -- Every item of the first is an item of the second.
  abbrev pub IsIncluded : Dict K V → Dict K V → Type κ
  IsIncluded [] d' = Unit
  IsIncluded ((k, v) ∷ d) d' = (lookup k d' ≡ some v) × IsIncluded d d'

  IsIncluded-cons :
      (k : K) (v : V) (d d' : Dict K V)
      → lookup k d ≡ none
      → IsIncluded d d'
      → IsIncluded d ((k, v) ∷ d')
  IsIncluded-cons k v [] d' h i = tt
  IsIncluded-cons k v ((j, w) ∷ d) d' h i =
      ground (arith, ==_iff j k, ==_iff k j, IsIncluded-cons k v d d')

  pub IsIncluded-refl : (d : Dict K V) → IsDict d → IsIncluded d d
  IsIncluded-refl [] h = tt
  IsIncluded-refl ((k, v) ∷ d) h =
      ground (arith, ==_iff k k, IsIncluded-cons k v d d h.0 (IsIncluded-refl d h.1))

-- `d1 == d2`, whatever the order of insertion
module _ {ℓ κ} {K : Type ℓ} {V : Type κ} ⦃e : Eq K⦄ ⦃f : Eq V⦄ where
  abbrev includes : Dict K V → Dict K V → Bool
  includes [] d' = true
  includes ((k, v) ∷ d) d' = lookup k d' == some v && includes d d'

  pub includes_of_IsIncluded : (d d' : Dict K V) → IsIncluded d d' → includes d d' ≡ true
  includes_of_IsIncluded [] d' h = refl
  includes_of_IsIncluded ((k, v) ∷ d) d' h =
      ground (arith, ==_iff (lookup k d') (some v), includes_of_IsIncluded d d' h.1)

  abbrev pub dict_beq : Dict K V → Dict K V → Bool
  dict_beq d d' = length d == length d' && includes d d'

  pub dict_beq_self : (d : Dict K V) → IsDict d → dict_beq d d ≡ true
  dict_beq_self d h =
      ground (arith, ==_iff (length d) (length d), includes_of_IsIncluded d d (IsIncluded-refl d h))

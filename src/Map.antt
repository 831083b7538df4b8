-- ===== src/Map.antt =====
-- Go's maps as association lists. A loop over a map goes through the entries in the order of the
-- list, which is any order: no definition keeps the entries sorted.
pub mod Laws
use yggdrasil_go.Base.{
  ℕ, ◌≡◌, ◌↔◌, List, [], ◌∷◌, Bool, true, false, Option, none, some, if◌then◌else◌, ◌==◌, ==_iff,
}
use yggdrasil_go.Binary.{Bytes}
use yggdrasil_go.Crypto.{equal}
use yggdrasil_go.Crypto.Order.{equal_refl, eq_of_equal}

-- A type of keys that Go compares with `==`.
pub record Key {ℓ} (K : Type ℓ) : Type ℓ where
  pub same : K → K → Bool
  pub same_iff : (a b : K) → (same a b ≡ true) ↔ (a ≡ b)

pub bytes_same_iff : (a b : Bytes) → (equal a b ≡ true) ↔ (a ≡ b)
bytes_same_iff a b = (eq_of_equal a b, λ e. rw e (equal_refl b))

instance abbrev pub bytes_key : Key Bytes
bytes_key = record { same = equal; same_iff = bytes_same_iff }

instance abbrev pub number_key : Key ℕ
number_key = record { same = ◌==◌; same_iff = ==_iff }

abbrev pub Map {ℓ κ} : Type ℓ → Type κ → Type (ℓ ⊔ κ)
Map K V = List (K × V)

module _ {ℓ κ} {K : Type ℓ} {V : Type κ} ⦃k : Key K⦄ where
  unfoldable pub lookup : K → Map K V → Option V
  lookup a [] = none
  lookup a ((b, v) ∷ m) = if k.same a b then some v else lookup a m

  -- `m[a] = v`
  unfoldable pub insert : K → V → Map K V → Map K V
  insert a v [] = (a, v) ∷ []
  insert a v ((b, w) ∷ m) = if k.same a b then (b, v) ∷ m else (b, w) ∷ insert a v m

  -- `delete(m, a)`
  unfoldable pub delete : K → Map K V → Map K V
  delete a [] = []
  delete a ((b, w) ∷ m) = let rest = delete a m in if k.same a b then rest else (b, w) ∷ rest

  -- `m[a]`, with the zero value of the type for a key that is not there.
  unfoldable pub get : V → K → Map K V → V
  unfolding lookup
  get zero_value a m = elim (lookup a m) [ none ↦ zero_value | some v ↦ v ]

  -- `_, isIn := m[a]`
  unfoldable pub is_in : K → Map K V → Bool
  unfolding lookup
  is_in a m = elim (lookup a m) [ none ↦ false | some v ↦ true ]

-- `map[K]struct{}`
abbrev pub SetOf {ℓ} : Type ℓ → Type ℓ
SetOf K = Map K (Unit {0})

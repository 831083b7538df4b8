-- ===== src/Crypto/Order.antt =====
-- `equal` decides equality, and `less` is a strict total order on the keys.
use yggdrasil_go.Base.{
  ◌≡◌, ◌≢◌, ◌⊎◌, inl, inr, refl, [], ◌∷◌, true, false, length, arith, Bool-cases,
}
use yggdrasil_go.Binary.{Bytes}
use yggdrasil_go.Crypto.{equal, less}

pub equal_refl : (a : Bytes) → equal a a ≡ true
unfolding equal
equal_refl [] = refl
equal_refl (x ∷ xs) = ground (arith, equal_refl xs)

pub eq_of_equal : (a b : Bytes) → equal a b ≡ true → a ≡ b
unfolding equal
eq_of_equal [] [] h = refl
eq_of_equal [] (y ∷ ys) h = cc
eq_of_equal (x ∷ xs) [] h = cc
eq_of_equal (x ∷ xs) (y ∷ ys) h = ground (arith, eq_of_equal xs ys)

pub ne_of_equal : (a b : Bytes) → equal a b ≡ false → a ≢ b
ne_of_equal a b h e = cc (equal_refl a)

pub equal_ne : (a b : Bytes) → a ≢ b → equal a b ≡ false
equal_ne a b h = elim (Bool-cases (equal a b)) [
  | inl e ↦ absurd (h (eq_of_equal a b e))
  | inr e ↦ e
]

pub less_irrefl : (a : Bytes) → less a a ≡ false
unfolding less
less_irrefl [] = refl
less_irrefl (x ∷ xs) = ground (arith, less_irrefl xs)

pub less_asymm : (a b : Bytes) → less a b ≡ true → less b a ≡ false
unfolding less
less_asymm [] b h = cc
less_asymm (x ∷ xs) [] h = cc
less_asymm (x ∷ xs) (y ∷ ys) h = ground (arith, less_asymm xs ys)

pub less_trans : (a b c : Bytes) → less a b ≡ true → less b c ≡ true → less a c ≡ true
unfolding less
less_trans [] b c h k = cc
less_trans (x ∷ xs) [] c h k = cc
less_trans (x ∷ xs) (y ∷ ys) [] h k = cc
less_trans (x ∷ xs) (y ∷ ys) (z ∷ zs) h k = ground (arith, less_trans xs ys zs)

-- Two keys of one length are equal if neither is less than the other.
pub less_total : (a b : Bytes) → length a ≡ length b → less a b ≡ false → less b a ≡ false → a ≡ b
unfolding less
less_total [] [] l h k = refl
less_total [] (y ∷ ys) l h k = absurd (omega arith)
less_total (x ∷ xs) [] l h k = absurd (omega arith)
less_total (x ∷ xs) (y ∷ ys) l h k = ground (arith, less_total xs ys (omega arith))

-- `less` orders the keys strictly and totally: it is irreflexive, asymmetric and transitive, and
-- of two different keys of one length one is less.
pub less_strict_order :
    (a b c : Bytes)
    → length a ≡ length b
    → (less a a ≡ false)
      × (less a b ≡ true → less b a ≡ false)
      × (less a b ≡ true → less b c ≡ true → less a c ≡ true)
      × (a ≢ b → (less a b ≡ true) ⊎ (less b a ≡ true))
less_strict_order a b c l = (less_irrefl a, less_asymm a b, less_trans a b c, differ)
  where
    differ : a ≢ b → (less a b ≡ true) ⊎ (less b a ≡ true)
    differ h = elim (Bool-cases (less a b)) [
      | inl e ↦ inl e
      | inr e ↦ elim (Bool-cases (less b a)) [
        | inl d ↦ inr d
        | inr d ↦ absurd (h (less_total a b l e d))
      ]
    ]

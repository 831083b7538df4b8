-- ===== src/Binary/Laws.antt =====
-- What is read back from what was written, and how long it is.
use yggdrasil_go.Base.{
  ℕ, zero, suc, ◌+◌, ◌*◌, ◌/◌, ◌^◌, ◌≤◌, ◌<◌, ◌≡◌, refl, [], ◌∷◌, ◌++◌, some, length, All, arith,
  inl, inr, not_lt→ltb, Option-cases,
}
use native.Mathlib.Nat.{pow-suc}
use yggdrasil_go.Binary.Defs.{Bytes, IsByte, IsU16, IsU64}
use yggdrasil_go.Binary.Defs.{uvarint_groups, uvarint_from, put_uvarint, uvarint}
use yggdrasil_go.Binary.Defs.{be16, get_be16, be64, get_be64}

uvarint_from-uvarint_groups :
    (k v : ℕ) (rest : Bytes)
    → v < 2 * 128 ^ k
    → uvarint_from k (uvarint_groups k v ++ rest) ≡ some (v, rest)
unfolding uvarint_from uvarint_groups
uvarint_from-uvarint_groups zero v rest h = ground arith
uvarint_from-uvarint_groups (suc k) v rest h =
    ground (arith, uvarint_from-uvarint_groups k (v / 128) rest (omega arith))

-- A uint64 is read back, whatever stands behind it.
pub uvarint-put_uvarint :
    (v : ℕ) (rest : Bytes) → IsU64 v → uvarint (put_uvarint v ++ rest) ≡ some (v, rest)
unfolding uvarint put_uvarint
uvarint-put_uvarint v rest h = uvarint_from-uvarint_groups 9 v rest (omega arith)

one-le-pow : (k : ℕ) → 1 ≤ 128 ^ k
one-le-pow zero = omega arith
one-le-pow (suc k) = omega (arith, one-le-pow k, pow-suc 128 k)

uvarint_from_bounds :
    (k : ℕ) (bs : Bytes) (v : ℕ) (rest : Bytes)
    → uvarint_from k bs ≡ some (v, rest)
    → (v < 2 * 128 ^ k) × (length rest < length bs) × (length bs ≤ length rest + k + 1)
unfolding uvarint_from
uvarint_from_bounds k [] v rest e = cc
uvarint_from_bounds zero (b ∷ bs) v rest e = ground arith
uvarint_from_bounds (suc k) (b ∷ bs) v rest e = elim (Option-cases (uvarint_from k bs)) [
  | inl p ↦ ground (arith, one-le-pow k, pow-suc 128 k)
  | inr ((high, r), p) ↦
      ground (arith, uvarint_from_bounds k bs high r p, one-le-pow k, pow-suc 128 k)
]

-- What is read is a uint64, and takes one to ten bytes.
pub uvarint_bounds :
    (bs : Bytes) (v : ℕ) (rest : Bytes)
    → uvarint bs ≡ some (v, rest)
    → IsU64 v × (length rest < length bs) × (length bs ≤ length rest + 10)
unfolding uvarint
uvarint_bounds bs v rest e = let h = uvarint_from_bounds 9 bs v rest e in omega arith

uvarint_groups-length :
    (k v : ℕ) → (1 ≤ length (uvarint_groups k v)) × (length (uvarint_groups k v) ≤ k + 1)
unfolding uvarint_groups
uvarint_groups-length zero v = omega arith
uvarint_groups-length (suc k) v = ground (arith, uvarint_groups-length k (v / 128))

-- A number of more than seven bits takes more than one byte.
pub put_uvarint-two : (v : ℕ) → 128 ≤ v → 2 ≤ length (put_uvarint v)
unfolding put_uvarint uvarint_groups
put_uvarint-two v h =
    let (one, _) = uvarint_groups-length 8 (v / 128) in rw (not_lt→ltb v 128 h) (omega arith)

pub put_uvarint-length : (v : ℕ) → (1 ≤ length (put_uvarint v)) × (length (put_uvarint v) ≤ 10)
unfolding put_uvarint
put_uvarint-length v = uvarint_groups-length 9 v

uvarint_groups-IsByte : (k v : ℕ) → v < 2 * 128 ^ k → All IsByte (uvarint_groups k v)
unfolding uvarint_groups
uvarint_groups-IsByte zero v h = omega arith
uvarint_groups-IsByte (suc k) v h = ground (arith, uvarint_groups-IsByte k (v / 128) (omega arith))

pub put_uvarint-IsByte : (v : ℕ) → IsU64 v → All IsByte (put_uvarint v)
unfolding put_uvarint
put_uvarint-IsByte v h = uvarint_groups-IsByte 9 v (omega arith)

pub get_be16-be16 : (v : ℕ) (rest : Bytes) → IsU16 v → get_be16 (be16 v ++ rest) ≡ v
unfolding get_be16 be16
get_be16-be16 v rest h = omega arith

pub get_be64-be64 : (v : ℕ) (rest : Bytes) → IsU64 v → get_be64 (be64 v ++ rest) ≡ v
unfolding get_be64 be64
get_be64-be64 v rest h = omega arith

pub length-be16 : (v : ℕ) → length (be16 v) ≡ 2
unfolding be16
length-be16 v = refl

pub length-be64 : (v : ℕ) → length (be64 v) ≡ 8
unfolding be64
length-be64 v = refl

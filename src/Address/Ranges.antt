-- ===== src/Address/Ranges.antt =====
-- Nodes and subnets have different ranges.
use yggdrasil_go.Base.{ℕ, ◌≡◌, ◌∷◌, some, true, false, arith, ◌++◌}
use yggdrasil_go.Binary.{Bytes, IsByte}
use yggdrasil_go.Address.{set_prefix, subnet_prefix, address_is_valid, subnet_is_valid}

-- With a prefix that `SetPrefix` accepts, no bytes that begin a valid address are a valid subnet,
-- and the prefix of the subnets is a byte as well.
pub ranges_disjoint :
    (p prefix b : ℕ) (bs rest : Bytes)
    → IsByte p
    → set_prefix p ≡ some prefix
    → address_is_valid prefix (b ∷ (bs ++ rest)) ≡ true
    → (subnet_is_valid prefix (b ∷ bs) ≡ false) × IsByte (subnet_prefix prefix)
unfolding set_prefix subnet_prefix address_is_valid subnet_is_valid
ranges_disjoint p prefix b bs rest h e v = ground arith

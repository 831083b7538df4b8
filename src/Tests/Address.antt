-- ===== src/Tests/Address.antt =====
-- The prefix 0x02 of the addresses 200::/7.
use yggdrasil_go.Base.{◌≡◌, refl, [], ◌∷◌, false, arith}
use yggdrasil_go.Binary.{IsByte}
use yggdrasil_go.Address.{set_prefix, subnet_prefix, address_is_valid, subnet_is_valid}
use yggdrasil_go.Address.Ranges.{ranges_disjoint}

ranges_disjoint_example : (subnet_is_valid 2 (2 ∷ 9 ∷ []) ≡ false) × IsByte (subnet_prefix 2)
unfolding set_prefix address_is_valid
ranges_disjoint_example = ranges_disjoint 2 2 2 (9 ∷ []) (4 ∷ []) (omega arith) refl refl

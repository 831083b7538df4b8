-- ===== src/Address.antt =====
-- src/address/address.go: the prefix byte of the network, and which addresses and /64 subnets are
-- in its range. The prefix is an argument, the one byte of `globalPrefix`.
pub mod Ranges
use yggdrasil_go.Base.{
  ℕ, ◌+◌, ◌-◌, ◌%◌, Option, none, some, Bool, true, false, not, ◌==◌, if◌then◌else◌, get_or,
}
use yggdrasil_go.Binary.{Bytes}

-- The new prefix, or the error of an odd one.
unfoldable pub set_prefix : ℕ → Option ℕ
set_prefix p = if not (p % 2 == 0) then none else some p

-- `prefix | 0x01`
unfoldable pub subnet_prefix : ℕ → ℕ
subnet_prefix prefix = prefix - prefix % 2 + 1

-- `IsValid` of an Address, which has 16 bytes.
unfoldable pub address_is_valid : ℕ → Bytes → Bool
address_is_valid prefix a = if not (get_or a 0 0 == prefix) then false else true

-- `IsValid` of a Subnet, which has 8 bytes. The loop goes over the prefix but its last byte, so
-- that it has no round.
unfoldable pub subnet_is_valid : ℕ → Bytes → Bool
subnet_is_valid prefix s = get_or s 0 0 == subnet_prefix prefix

-- ===== src/Messages/Encoding.antt =====
-- What the methods `encode` share: the size that is checked at their end.
use yggdrasil_go.Base.{
  ℕ, ◌+◌, ◌-◌, ◌≡◌, refl, ◌++◌, append_assoc, some, length, length-append, arith, ◌==◌, ==_refl,
  ◌>>=◌, ◌>>◌, require,
}
use yggdrasil_go.Binary.{Bytes}
use yggdrasil_go.Wire.{check_size}
use yggdrasil_go.Wire.Paths.{append_uint_lem, append_path_lem, size_path_lem, size_uint_lem}

-- The check passes where the bytes added are as many as `size` says.
pub check_size_pass :
    (out body : Bytes) (n : ℕ)
    → length body ≡ n
    → check_size (length out) n (out ++ body) ≡ some (out ++ body)
unfolding check_size
check_size_pass out body n h = rw (measured, ==_refl n)
  where
    measured : length (out ++ body) - length out ≡ n
    measured = omega (arith, length-append out body)

-- Bytes written one piece after the other are `out` and then the pieces.
pub ruleset pieces = (append_path_lem, append_uint_lem, append_assoc)

-- Their sizes, one by one.
pub ruleset sizes = (length-append, size_path_lem, size_uint_lem)

-- ===== src/Messages/RouterSigReq.antt =====
-- ironwood/network/router.go: routerSigReq, the request that a node signs to become its peer's parent.
pub mod Laws
use yggdrasil_go.Base.{
  ℕ, ◌+◌, ◌-◌, ◌≡◌, ◌≢◌, refl, sym, ◌∙◌, ap, List, [], ◌∷◌, ◌++◌, append_assoc, append-nil, Option,
  none, some, length, length-append, All, arith, ◌>>=◌, ◌>>◌, require, ◌==◌, Bool, true, false,
  ◌&&◌, not, if◌then◌else◌, ◌||◌,
}
use yggdrasil_go.Binary.{Bytes, IsU64, put_uvarint}
use yggdrasil_go.Wire.{chop_slice, chop_uint, chop_path, size_uint, size_path}
use yggdrasil_go.Wire.{append_uint, append_path, check_size}
use yggdrasil_go.Crypto.{public_key_size, signature_size}

pub record RouterSigReq : Type 0 where
  pub seq : ℕ
  pub nonce : ℕ

unfoldable pub size : RouterSigReq → ℕ
size req = size_uint req.seq + size_uint req.nonce

unfoldable pub encode : Bytes → RouterSigReq → Option Bytes
unfolding size
encode out req =
    let out1 = append_uint out req.seq in
    let out2 = append_uint out1 req.nonce in check_size (length out) (size req) out2

-- The error of `encode` is not looked at.
unfoldable pub bytes_for_sig : Bytes → Bytes → RouterSigReq → Option Bytes
bytes_for_sig node parent req =
    let out1 = [] ++ node in let out2 = out1 ++ parent in encode out2 req

unfoldable pub chop : Bytes → Option (RouterSigReq × Bytes)
chop bs = do
  (seq, bs1) ← chop_uint bs
  (nonce, bs2) ← chop_uint bs1
  some (record { seq = seq; nonce = nonce }, bs2)

unfoldable pub decode : Bytes → Option RouterSigReq
unfolding chop
decode bs = do (req, rest) ← chop bs; require (length rest == 0); some req

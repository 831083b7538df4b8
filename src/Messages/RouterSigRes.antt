-- ===== src/Messages/RouterSigRes.antt =====
-- ironwood/network/router.go: routerSigRes, the parent's signature with the port that it assigned.
pub mod Laws
use yggdrasil_go.Base.{
  ℕ, ◌+◌, ◌-◌, ◌≡◌, ◌≢◌, refl, sym, ◌∙◌, ap, List, [], ◌∷◌, ◌++◌, append_assoc, append-nil, Option,
  none, some, length, length-append, All, arith, ◌>>=◌, ◌>>◌, require, ◌==◌, Bool, true, false,
  ◌&&◌, not, if◌then◌else◌, ◌||◌,
}
use yggdrasil_go.Binary.{Bytes, IsU64, put_uvarint}
use yggdrasil_go.Wire.{chop_slice, chop_uint, chop_path, size_uint, size_path}
use yggdrasil_go.Wire.{append_uint, append_path, check_size}
use yggdrasil_go.Crypto.{public_key_size, signature_size}
use yggdrasil_go.Messages.RouterSigReq
use yggdrasil_go.Messages.RouterSigReq.{RouterSigReq}

pub record RouterSigRes : Type 0 where
  pub req : RouterSigReq
  pub open req use *
  pub port : ℕ
  pub psig : Bytes

unfoldable pub bytes_for_sig : Bytes → Bytes → RouterSigRes → Option Bytes
bytes_for_sig node parent res = do
  bs ← RouterSigReq.bytes_for_sig node parent res.req
  some (append_uint bs res.port)

-- `verify` takes the key, the signed bytes and the signature.
unfoldable pub check : (Bytes → Bytes → Bytes → Bool) → Bytes → Bytes → RouterSigRes → Option Bool
unfolding bytes_for_sig
check verify node parent res = do
  bs ← bytes_for_sig node parent res
  some (verify parent bs res.psig)

unfoldable pub size : RouterSigRes → ℕ
size res = RouterSigReq.size res.req + size_uint res.port + length res.psig

unfoldable pub encode : Bytes → RouterSigRes → Option Bytes
unfolding size
encode out res = do
  out1 ← RouterSigReq.encode out res.req
  let out2 = append_uint out1 res.port
  let out3 = out2 ++ res.psig
  check_size (length out) (size res) out3

unfoldable pub chop : Bytes → Option (RouterSigRes × Bytes)
chop bs = do
  (req, bs1) ← RouterSigReq.chop bs
  (port, bs2) ← chop_uint bs1
  (psig, bs3) ← chop_slice signature_size bs2
  some (record { req = req; port = port; psig = psig }, bs3)

unfoldable pub decode : Bytes → Option RouterSigRes
unfolding chop
decode bs = do (res, rest) ← chop bs; require (length rest == 0); some res

-- ===== src/Messages/RouterAnnounce.antt =====
-- ironwood/network/router.go: routerAnnounce, a node's signed statement of its parent in the tree,
-- and routerInfo, the same as it is kept in the router's map.
pub mod Laws
use yggdrasil_go.Base.{
  ℕ, ◌+◌, ◌-◌, ◌≡◌, ◌≢◌, refl, sym, ◌∙◌, ap, List, [], ◌∷◌, ◌++◌, append_assoc, append-nil, Option,
  none, some, length, length-append, All, arith, ◌>>=◌, ◌>>◌, require, ◌==◌, Bool, true, false,
  ◌&&◌, not, if◌then◌else◌, ◌||◌,
}
use yggdrasil_go.Binary.{Bytes, IsU64, put_uvarint}
use yggdrasil_go.Wire.{chop_slice, chop_uint, chop_path, size_uint, size_path}
use yggdrasil_go.Wire.{append_uint, append_path, check_size}
use yggdrasil_go.Crypto.{public_key_size, signature_size}
use yggdrasil_go.Crypto.{equal}
use yggdrasil_go.Messages.RouterSigRes
use yggdrasil_go.Messages.RouterSigRes.{RouterSigRes}

pub record RouterAnnounce : Type 0 where
  pub key : Bytes
  pub parent : Bytes
  pub res : RouterSigRes
  pub open res use *
  pub sig : Bytes

-- `verify` takes the key, the signed bytes and the signature. `none` is a panic.
unfoldable pub check : (Bytes → Bytes → Bytes → Bool) → RouterAnnounce → Option Bool
check verify ann =
    let signatures : Option Bool = RouterSigRes.bytes_for_sig ann.key ann.parent ann.res >>= λ bs.
    some (verify ann.key bs ann.sig && verify ann.parent bs ann.psig) in
    if (ann.port == 0) && not (equal ann.key ann.parent) then some false else signatures

unfoldable pub size : RouterAnnounce → ℕ
size ann = length ann.key + length ann.parent + RouterSigRes.size ann.res + length ann.sig

unfoldable pub encode : Bytes → RouterAnnounce → Option Bytes
unfolding size
encode out ann = do
  let out1 = out ++ ann.key
  let out2 = out1 ++ ann.parent
  out3 ← RouterSigRes.encode out2 ann.res
  let out4 = out3 ++ ann.sig
  check_size (length out) (size ann) out4

unfoldable pub decode : Bytes → Option RouterAnnounce
decode bs = do
  (key, bs1) ← chop_slice public_key_size bs
  (parent, bs2) ← chop_slice public_key_size bs1
  (res, bs3) ← RouterSigRes.chop bs2
  (sig, bs4) ← chop_slice signature_size bs3
  require (length bs4 == 0)
  some (record { key = key; parent = parent; res = res; sig = sig })

pub record RouterInfo : Type 0 where
  pub parent : Bytes
  pub res : RouterSigRes
  pub open res use *
  pub sig : Bytes

unfoldable pub get_announce : RouterInfo → Bytes → RouterAnnounce
get_announce info key = record { key = key; parent = info.parent; res = info.res; sig = info.sig }

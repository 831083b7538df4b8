-- ===== src/Messages/PathNotify.antt =====
-- ironwood/network/pathfinder.go: pathNotify, the answer to a lookup, which carries the answering
-- node's coordinates.
pub mod Laws
use yggdrasil_go.Base.{
  ℕ, ◌+◌, ◌-◌, ◌≡◌, ◌≢◌, refl, sym, ◌∙◌, ap, List, [], ◌∷◌, ◌++◌, append_assoc, append-nil, Option,
  none, some, length, length-append, All, arith, ◌>>=◌, ◌>>◌, require, ◌==◌, Bool, true, false,
  ◌&&◌, not, if◌then◌else◌, ◌||◌,
}
use yggdrasil_go.Binary.{Bytes, IsU64, put_uvarint}
use yggdrasil_go.Wire.{chop_slice, chop_uint, chop_path, size_uint, size_path}
use yggdrasil_go.Wire.{
  append_uint, append_path, check_size, WirePacketType, proto_path_lookup, proto_path_notify,
  proto_path_broken,
}
use yggdrasil_go.Crypto.{public_key_size, signature_size}
use yggdrasil_go.Messages.PathNotifyInfo
use yggdrasil_go.Messages.PathNotifyInfo.{PathNotifyInfo}

pub record PathNotify : Type 0 where
  pub path : List ℕ
  pub watermark : ℕ
  pub source : Bytes
  pub dest : Bytes
  pub info : PathNotifyInfo

-- `verify` takes the key, the signed bytes and the signature.
unfoldable pub check : (Bytes → Bytes → Bytes → Bool) → PathNotify → Bool
check verify notify =
    verify notify.source (PathNotifyInfo.bytes_for_sig notify.info) notify.info.sig

unfoldable pub size : PathNotify → ℕ
size notify =
    size_path notify.path
    + size_uint notify.watermark
    + length notify.source
    + length notify.dest
    + PathNotifyInfo.size notify.info

unfoldable pub encode : Bytes → PathNotify → Option Bytes
unfolding size
encode out notify = do
  let out1 = append_path out notify.path
  let out2 = append_uint out1 notify.watermark
  let out3 = out2 ++ notify.source
  let out4 = out3 ++ notify.dest
  out5 ← PathNotifyInfo.encode out4 notify.info
  check_size (length out) (size notify) out5

unfoldable pub decode : Bytes → Option PathNotify
decode bs = do
  (path, bs1) ← chop_path [] bs
  (watermark, bs2) ← chop_uint bs1
  (source, bs3) ← chop_slice public_key_size bs2
  (dest, bs4) ← chop_slice public_key_size bs3
  info ← PathNotifyInfo.decode bs4
  some (record { path = path; watermark = watermark; source = source; dest = dest; info = info })

unfoldable pub wire_type : PathNotify → WirePacketType
wire_type notify = proto_path_notify

unfoldable pub source_key : PathNotify → Bytes
source_key notify = notify.source

unfoldable pub dest_key : PathNotify → Bytes
dest_key notify = notify.dest

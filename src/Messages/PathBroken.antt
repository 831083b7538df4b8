-- ===== src/Messages/PathBroken.antt =====
-- ironwood/network/pathfinder.go: pathBroken, the report that a source route no longer leads on.
pub mod Laws
use yggdrasil_go.Base.{
  ℕ, ◌+◌, ◌-◌, ◌≡◌, ◌≢◌, refl, sym, ◌∙◌, ap, List, [], ◌∷◌, ◌++◌, append_assoc, append-nil, Option,
  none, some, length, length-append, All, arith, ◌>>=◌, ◌>>◌, require, ◌==◌, Bool, true, false,
  ◌&&◌, not, if◌then◌else◌, ◌||◌,
}
use yggdrasil_go.Binary.{Bytes, IsU64, put_uvarint}
use yggdrasil_go.Wire.{chop_slice, chop_uint, chop_path, size_uint, size_path}
use yggdrasil_go.Wire.{
  append_uint, append_path, check_size, WirePacketType, proto_path_lookup, proto_path_notify,
  proto_path_broken,
}
use yggdrasil_go.Crypto.{public_key_size, signature_size}

pub record PathBroken : Type 0 where
  pub path : List ℕ
  pub watermark : ℕ
  pub source : Bytes
  pub dest : Bytes

unfoldable pub size : PathBroken → ℕ
size broken =
    size_path broken.path + size_uint broken.watermark + length broken.source + length broken.dest

unfoldable pub encode : Bytes → PathBroken → Option Bytes
unfolding size
encode out broken =
    let out1 = append_path out broken.path in
    let out2 = append_uint out1 broken.watermark in
    let out3 = out2 ++ broken.source in
    let out4 = out3 ++ broken.dest in check_size (length out) (size broken) out4

unfoldable pub decode : Bytes → Option PathBroken
decode bs = do
  (path, bs1) ← chop_path [] bs
  (watermark, bs2) ← chop_uint bs1
  (source, bs3) ← chop_slice public_key_size bs2
  (dest, bs4) ← chop_slice public_key_size bs3
  require (length bs4 == 0)
  some (record { path = path; watermark = watermark; source = source; dest = dest })

unfoldable pub wire_type : PathBroken → WirePacketType
wire_type broken = proto_path_broken

unfoldable pub source_key : PathBroken → Bytes
source_key broken = broken.source

unfoldable pub dest_key : PathBroken → Bytes
dest_key broken = broken.dest

-- ===== src/Messages/PathLookup.antt =====
-- ironwood/network/pathfinder.go: pathLookup, the search for a node's path that is sent along the
-- tree.
pub mod Laws
use yggdrasil_go.Base.{
  ℕ, ◌+◌, ◌-◌, ◌≡◌, ◌≢◌, refl, sym, ◌∙◌, ap, List, [], ◌∷◌, ◌++◌, append_assoc, append-nil, Option,
  none, some, length, length-append, All, arith, ◌>>=◌, ◌>>◌, require, ◌==◌, Bool, true, false,
  ◌&&◌, not, if◌then◌else◌, ◌||◌,
}
use yggdrasil_go.Binary.{Bytes, IsU64, put_uvarint}
use yggdrasil_go.Wire.{chop_slice, chop_uint, chop_path, size_uint, size_path}
use yggdrasil_go.Wire.{
  append_uint, append_path, check_size, WirePacketType, proto_path_lookup, proto_path_notify,
  proto_path_broken,
}
use yggdrasil_go.Crypto.{public_key_size, signature_size}

pub record PathLookup : Type 0 where
  pub source : Bytes
  pub dest : Bytes
  pub from : List ℕ

unfoldable pub size : PathLookup → ℕ
size lookup = length lookup.source + length lookup.dest + size_path lookup.from

unfoldable pub encode : Bytes → PathLookup → Option Bytes
unfolding size
encode out lookup =
    let out1 = out ++ lookup.source in
    let out2 = out1 ++ lookup.dest in
    let out3 = append_path out2 lookup.from in check_size (length out) (size lookup) out3

unfoldable pub decode : Bytes → Option PathLookup
decode bs = do
  (source, bs1) ← chop_slice public_key_size bs
  (dest, bs2) ← chop_slice public_key_size bs1
  (from, bs3) ← chop_path [] bs2
  require (length bs3 == 0)
  some (record { source = source; dest = dest; from = from })

unfoldable pub wire_type : PathLookup → WirePacketType
wire_type lookup = proto_path_lookup

unfoldable pub source_key : PathLookup → Bytes
source_key lookup = lookup.source

unfoldable pub dest_key : PathLookup → Bytes
dest_key lookup = lookup.dest

-- ===== src/Messages/Traffic.antt =====
-- ironwood/network/traffic.go: a packet of user data with its source route.
pub mod Laws
use yggdrasil_go.Base.{ℕ, ◌+◌, List, [], ◌++◌, Option, none, some, length, ◌>>=◌}
use yggdrasil_go.Binary.{Bytes}
use yggdrasil_go.Wire.{chop_slice, chop_uint, chop_path, size_uint, size_path}
use yggdrasil_go.Wire.{append_uint, append_path, check_size, WirePacketType, wire_traffic}
use yggdrasil_go.Crypto.{public_key_size}

pub record Traffic : Type 0 where
  pub path : List ℕ
  pub from : List ℕ
  pub source : Bytes
  pub dest : Bytes
  pub watermark : ℕ
  pub payload : Bytes

-- `*tr = *original`, then the slices are copied: the buffers of `tr` are reused, and the values
-- are those of the original.
unfoldable pub copy_from : Traffic → Traffic → Traffic
copy_from tr original = original

unfoldable pub size : Traffic → ℕ
size tr =
    size_path tr.path
    + size_path tr.from
    + length tr.source
    + length tr.dest
    + size_uint tr.watermark
    + length tr.payload

unfoldable pub encode : Bytes → Traffic → Option Bytes
unfolding size
encode out tr =
    let out1 = append_path out tr.path in
    let out2 = append_path out1 tr.from in
    let out3 = out2 ++ tr.source in
    let out4 = out3 ++ tr.dest in
    let out5 = append_uint out4 tr.watermark in
    let out6 = out5 ++ tr.payload in check_size (length out) (size tr) out6

unfoldable pub decode : Bytes → Option Traffic
decode bs = do
  (path, bs1) ← chop_path [] bs
  (from, bs2) ← chop_path [] bs1
  (source, bs3) ← chop_slice public_key_size bs2
  (dest, bs4) ← chop_slice public_key_size bs3
  (watermark, payload) ← chop_uint bs4
  some (record {
    path = path;
    from = from;
    source = source;
    dest = dest;
    watermark = watermark;
    payload = payload;
  })

unfoldable pub wire_type : Traffic → WirePacketType
wire_type tr = wire_traffic

unfoldable pub source_key : Traffic → Bytes
source_key tr = tr.source

unfoldable pub dest_key : Traffic → Bytes
dest_key tr = tr.dest

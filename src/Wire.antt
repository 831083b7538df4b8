-- ===== src/Wire.antt =====
-- ironwood/network/wire.go: the pieces of which every packet is put together. A function that
-- takes bytes off the front of `*data` returns what it read and what is left; `none` is its
-- `false`, on which neither `*out` nor `*data` has changed.
pub mod Paths
pub mod Decoding
use yggdrasil_go.Base.{
  ℕ, zero, suc, ◌+◌, ◌-◌, List, [], ◌∷◌, ◌++◌, Option, none, some, length, take, drop, ltb, ◌==◌,
  if◌then◌else◌, ◌>>=◌, ◌>>◌, require,
}
use yggdrasil_go.Binary.{Bytes, put_uvarint, append_uvarint, uvarint}

pub data WirePacketType : Type 0 where
  dummy keep_alive proto_sig_req proto_sig_res proto_announce proto_bloom_filter : WirePacketType
  proto_path_lookup proto_path_notify proto_path_broken wire_traffic : WirePacketType

-- The byte on the wire, by `iota`.
unfoldable pub wire_packet_type : WirePacketType → ℕ
wire_packet_type dummy = 0
wire_packet_type keep_alive = 1
wire_packet_type proto_sig_req = 2
wire_packet_type proto_sig_res = 3
wire_packet_type proto_announce = 4
wire_packet_type proto_bloom_filter = 5
wire_packet_type proto_path_lookup = 6
wire_packet_type proto_path_notify = 7
wire_packet_type proto_path_broken = 8
wire_packet_type wire_traffic = 9

-- `n` is the length of `out`, which is filled whole.
unfoldable pub chop_slice : ℕ → Bytes → Option (Bytes × Bytes)
chop_slice n bs = if ltb (length bs) n then none else some (take n bs, drop n bs)

unfoldable pub chop_bytes : Bytes → Bytes → ℕ → Option (Bytes × Bytes)
chop_bytes out bs size =
    if ltb (length bs) size then none else some (out ++ take size bs, drop size bs)

unfoldable pub chop_uint : Bytes → Option (ℕ × Bytes)
chop_uint bs = uvarint bs

unfoldable pub size_uint : ℕ → ℕ
size_uint u = length (put_uvarint u)

unfoldable pub append_uint : Bytes → ℕ → Bytes
append_uint out u = append_uvarint out u

-- The type byte, then the packet; `encode` is the packet's method, and `none` its panic.
unfoldable pub wire_encode : (Bytes → Option Bytes) → Bytes → WirePacketType → Option Bytes
unfolding wire_packet_type
wire_encode encode out p_type = encode (out ++ (wire_packet_type p_type ∷ []))

-- The end of each `encode` method: it panics unless as many bytes were added as `size` says.
unfoldable pub check_size : ℕ → ℕ → Bytes → Option Bytes
check_size start size out = do require (length out - start == size); some out

size_path_loop : ℕ → List ℕ → ℕ
unfolding size_uint
size_path_loop size [] = size
size_path_loop size (port ∷ path) = size_path_loop (size + size_uint port) path

unfoldable pub size_path : List ℕ → ℕ
unfolding size_path_loop size_uint
size_path path = size_path_loop 0 path + size_uint 0

append_path_loop : Bytes → List ℕ → Bytes
append_path_loop dest [] = dest
append_path_loop dest (port ∷ path) = append_path_loop (append_uint dest port) path

unfoldable pub append_path : Bytes → List ℕ → Bytes
unfolding append_path_loop
append_path dest path = append_uint (append_path_loop dest path) 0

-- The `for` loop: the path so far and the bytes that are left. Each round takes a byte at least,
-- so a round for each byte is enough; with no byte left `chop_uint` fails.
pub decode_path_loop : ℕ → List ℕ → Bytes → Option (List ℕ × Bytes)
decode_path_loop zero path bs = none
decode_path_loop (suc fuel) path bs = do
  (u, rest) ← chop_uint bs
  let more = decode_path_loop fuel (path ++ (u ∷ [])) rest
  if u == 0 then some (path, rest) else more

-- The path and the number of bytes that it took; `none` is Go's `nil, -1`.
unfoldable pub decode_path : List ℕ → Bytes → Option (List ℕ × ℕ)
unfolding decode_path_loop
decode_path path source = do
  (p, bs) ← decode_path_loop (length source) path source
  some (p, length source - length bs)

unfoldable pub chop_path : List ℕ → Bytes → Option (List ℕ × Bytes)
chop_path out bs = do (path, n) ← decode_path [] bs; some (out ++ path, drop n bs)

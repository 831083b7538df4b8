-- ===== src/Messages/Traffic/Laws.antt =====
-- The traffic packet: its size is exact, and it is read back.
use yggdrasil_go.Base.{◌≡◌, [], ◌++◌, some, length, All, arith}
use yggdrasil_go.Binary.{Bytes, IsU64, put_uvarint}
use yggdrasil_go.Wire.Paths.{
  IsPort, path_bytes, chop_path-path_bytes, chop_slice-append, chop_uint-put_uvarint,
}
use yggdrasil_go.Crypto.{IsPublicKey}
use yggdrasil_go.Messages.Encoding.{check_size_pass, pieces, sizes}
use yggdrasil_go.Messages.Traffic.{Traffic, size, encode, decode}

-- What the types of the fields and a source route guarantee.
pub record IsWellFormed (tr : Traffic) : Type 0 where
  pub path_ports : All IsPort tr.path
  pub from_ports : All IsPort tr.from
  pub source_key : IsPublicKey tr.source
  pub dest_key : IsPublicKey tr.dest
  pub watermark_u64 : IsU64 tr.watermark

body : Traffic → Bytes
body tr =
    path_bytes tr.path
    ++ (path_bytes tr.from ++ (tr.source ++ (tr.dest ++ (put_uvarint tr.watermark ++ tr.payload))))

length-body : (tr : Traffic) → length (body tr) ≡ size tr
unfolding body size
length-body tr = simp sizes (omega arith)

encode-body : (out : Bytes) (tr : Traffic) → encode out tr ≡ some (out ++ body tr)
unfolding encode body
encode-body out tr = simp pieces (check_size_pass out (body tr) (size tr) (length-body tr))

decode-body : (tr : Traffic) → IsWellFormed tr → decode (body tr) ≡ some tr
unfolding decode body
decode-body tr w = rw (
  chop_path-path_bytes [] tr.path _ w.path_ports,
  chop_path-path_bytes [] tr.from _ w.from_ports,
  chop_slice-append _ tr.source _ w.source_key,
  chop_slice-append _ tr.dest _ w.dest_key,
  chop_uint-put_uvarint tr.watermark _ w.watermark_u64,
)

-- A well-formed packet is encoded without a panic: `encode` appends as many bytes as `size` says,
-- and `decode` reads the packet back from them.
pub traffic_round_trip :
    (out : Bytes) (tr : Traffic)
    → IsWellFormed tr
    → (bs : Bytes) × (encode out tr ≡ some (out ++ bs))
      × (length bs ≡ size tr)
      × (decode bs ≡ some tr)
traffic_round_trip out tr w = (body tr, encode-body out tr, length-body tr, decode-body tr w)

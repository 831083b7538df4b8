-- ===== src/Messages/PathBroken/Laws.antt =====
-- The broken-path packet: its size is exact, and it is read back.
use yggdrasil_go.Base.{◌≡◌, [], ◌++◌, some, length, All, arith}
use yggdrasil_go.Binary.{Bytes, IsU64, put_uvarint}
use yggdrasil_go.Wire.Paths.{
  IsPort, path_bytes, chop_path-path_bytes, chop_slice-append, chop_slice_all,
  chop_uint-put_uvarint,
}
use yggdrasil_go.Crypto.{IsPublicKey}
use yggdrasil_go.Messages.Encoding.{check_size_pass, pieces, sizes}
use yggdrasil_go.Messages.PathBroken.{PathBroken, size, encode, decode}

pub record IsWellFormed (broken : PathBroken) : Type 0 where
  pub path_ports : All IsPort broken.path
  pub watermark_u64 : IsU64 broken.watermark
  pub source_key : IsPublicKey broken.source
  pub dest_key : IsPublicKey broken.dest

body : PathBroken → Bytes
body broken =
    path_bytes broken.path ++ (put_uvarint broken.watermark ++ (broken.source ++ broken.dest))

length-body : (broken : PathBroken) → length (body broken) ≡ size broken
unfolding body size
length-body broken = simp sizes (omega arith)

encode-body : (out : Bytes) (broken : PathBroken) → encode out broken ≡ some (out ++ body broken)
unfolding encode body
encode-body out broken =
    simp pieces (check_size_pass out (body broken) (size broken) (length-body broken))

decode-body : (broken : PathBroken) → IsWellFormed broken → decode (body broken) ≡ some broken
unfolding decode body
decode-body broken w = rw (
  chop_path-path_bytes [] broken.path _ w.path_ports,
  chop_uint-put_uvarint broken.watermark _ w.watermark_u64,
  chop_slice-append _ broken.source _ w.source_key,
  chop_slice_all _ broken.dest w.dest_key,
)

-- A well-formed report is encoded without a panic: `encode` appends as many bytes as `size` says,
-- and `decode` reads the report back from them.
pub path_broken_round_trip :
    (out : Bytes) (broken : PathBroken)
    → IsWellFormed broken
    → (bs : Bytes) × (encode out broken ≡ some (out ++ bs))
      × (length bs ≡ size broken)
      × (decode bs ≡ some broken)
path_broken_round_trip out broken w =
    (body broken, encode-body out broken, length-body broken, decode-body broken w)

-- ===== src/Messages/PathLookup/Laws.antt =====
-- The lookup packet: its size is exact, and it is read back.
use yggdrasil_go.Base.{◌≡◌, [], ◌++◌, append-nil, some, length, All, arith}
use yggdrasil_go.Binary.{Bytes}
use yggdrasil_go.Wire.Paths.{IsPort, path_bytes, chop_path-path_bytes, chop_slice-append}
use yggdrasil_go.Crypto.{IsPublicKey}
use yggdrasil_go.Messages.Encoding.{check_size_pass, pieces, sizes}
use yggdrasil_go.Messages.PathLookup.{PathLookup, size, encode, decode}

pub record IsWellFormed (lookup : PathLookup) : Type 0 where
  pub source_key : IsPublicKey lookup.source
  pub dest_key : IsPublicKey lookup.dest
  pub from_ports : All IsPort lookup.from

body : PathLookup → Bytes
body lookup = lookup.source ++ (lookup.dest ++ path_bytes lookup.from)

length-body : (lookup : PathLookup) → length (body lookup) ≡ size lookup
unfolding body size
length-body lookup = simp sizes (omega arith)

encode-body : (out : Bytes) (lookup : PathLookup) → encode out lookup ≡ some (out ++ body lookup)
unfolding encode body
encode-body out lookup =
    simp pieces (check_size_pass out (body lookup) (size lookup) (length-body lookup))

decode-body : (lookup : PathLookup) → IsWellFormed lookup → decode (body lookup) ≡ some lookup
unfolding decode body
decode-body lookup w = rw (
  chop_slice-append _ lookup.source _ w.source_key,
  chop_slice-append _ lookup.dest _ w.dest_key,
  ← append-nil (path_bytes lookup.from),
  chop_path-path_bytes [] lookup.from _ w.from_ports,
)

-- A well-formed lookup is encoded without a panic: `encode` appends as many bytes as `size` says,
-- and `decode` reads the lookup back from them.
pub path_lookup_round_trip :
    (out : Bytes) (lookup : PathLookup)
    → IsWellFormed lookup
    → (bs : Bytes) × (encode out lookup ≡ some (out ++ bs))
      × (length bs ≡ size lookup)
      × (decode bs ≡ some lookup)
path_lookup_round_trip out lookup w =
    (body lookup, encode-body out lookup, length-body lookup, decode-body lookup w)

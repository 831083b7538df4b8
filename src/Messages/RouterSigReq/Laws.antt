-- ===== src/Messages/RouterSigReq/Laws.antt =====
-- The signature request: its size is exact, and it is read back.
use yggdrasil_go.Base.{◌≡◌, [], ◌++◌, append_assoc, append-nil, some, length}
use yggdrasil_go.Binary.{Bytes, IsU64, put_uvarint}
use yggdrasil_go.Wire.Paths.{chop_uint-put_uvarint}
use yggdrasil_go.Messages.Encoding.{check_size_pass, pieces, sizes}
use yggdrasil_go.Messages.RouterSigReq.{RouterSigReq, size, encode, chop, decode}

pub record IsWellFormed (req : RouterSigReq) : Type 0 where
  pub seq_u64 : IsU64 req.seq
  pub nonce_u64 : IsU64 req.nonce

pub body : RouterSigReq → Bytes
body req = put_uvarint req.seq ++ put_uvarint req.nonce

pub length-body : (req : RouterSigReq) → length (body req) ≡ size req
unfolding body size
length-body req = simp sizes

pub encode-body : (out : Bytes) (req : RouterSigReq) → encode out req ≡ some (out ++ body req)
unfolding encode body
encode-body out req = simp pieces (check_size_pass out (body req) (size req) (length-body req))

pub chop-body :
    (req : RouterSigReq) (rest : Bytes)
    → IsWellFormed req
    → chop (body req ++ rest) ≡ some (req, rest)
unfolding chop body
chop-body req rest w = rw (
  append_assoc (put_uvarint req.seq) (put_uvarint req.nonce) rest,
  chop_uint-put_uvarint req.seq _ w.seq_u64,
  chop_uint-put_uvarint req.nonce _ w.nonce_u64,
)

decode-body : (req : RouterSigReq) → IsWellFormed req → decode (body req) ≡ some req
unfolding decode
decode-body req w = rw (← append-nil (body req)) (rw (chop-body req [] w))

-- A well-formed request is encoded without a panic: `encode` appends as many bytes as `size` says,
-- and `decode` reads the request back from them.
pub router_sig_req_round_trip :
    (out : Bytes) (req : RouterSigReq)
    → IsWellFormed req
    → (bs : Bytes) × (encode out req ≡ some (out ++ bs))
      × (length bs ≡ size req)
      × (decode bs ≡ some req)
router_sig_req_round_trip out req w =
    (body req, encode-body out req, length-body req, decode-body req w)

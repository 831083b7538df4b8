-- ===== src/Messages/RouterAnnounce/Laws.antt =====
-- The bytes of an announcement, and how they are read.
use yggdrasil_go.Base.{◌≡◌, ◌++◌, some, length, arith}
use yggdrasil_go.Binary.{Bytes}
use yggdrasil_go.Wire.Paths.{chop_slice-append, chop_slice_all}
use yggdrasil_go.Crypto.{IsPublicKey, IsSignature}
use yggdrasil_go.Messages.Encoding.{check_size_pass, pieces, sizes}
use yggdrasil_go.Messages.RouterSigRes.Laws as ResLaws
use yggdrasil_go.Messages.RouterAnnounce.{RouterAnnounce, size, encode, decode}

pub record IsWellFormed (ann : RouterAnnounce) : Type 0 where
  pub key_size : IsPublicKey ann.key
  pub parent_size : IsPublicKey ann.parent
  pub res_formed : ResLaws.IsWellFormed ann.res
  pub sig_size : IsSignature ann.sig

body : RouterAnnounce → Bytes
body ann = ann.key ++ (ann.parent ++ (ResLaws.body ann.res ++ ann.sig))

length-body : (ann : RouterAnnounce) → length (body ann) ≡ size ann
unfolding body size
length-body ann = simp (sizes, ResLaws.length-body) (omega arith)

encode-body : (out : Bytes) (ann : RouterAnnounce) → encode out ann ≡ some (out ++ body ann)
unfolding encode body
encode-body out ann =
    simp (ResLaws.encode-body, pieces) (check_size_pass out (body ann) (size ann) (length-body ann))

decode-body : (ann : RouterAnnounce) → IsWellFormed ann → decode (body ann) ≡ some ann
unfolding decode body
decode-body ann w = rw (
  chop_slice-append _ ann.key _ w.key_size,
  chop_slice-append _ ann.parent _ w.parent_size,
  ResLaws.chop-body ann.res _ w.res_formed,
  chop_slice_all _ ann.sig w.sig_size,
)

-- A well-formed announcement is encoded without a panic: `encode` appends as many bytes as `size` says,
-- and `decode` reads the announcement back from them.
pub router_announce_round_trip :
    (out : Bytes) (ann : RouterAnnounce)
    → IsWellFormed ann
    → (bs : Bytes) × (encode out ann ≡ some (out ++ bs))
      × (length bs ≡ size ann)
      × (decode bs ≡ some ann)
router_announce_round_trip out ann w =
    (body ann, encode-body out ann, length-body ann, decode-body ann w)

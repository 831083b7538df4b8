-- ===== src/Messages/RouterSigRes/Laws.antt =====
-- The signature response: its size is exact, it is read back, and the signed bytes fix what they
-- speak of.
use yggdrasil_go.Base.{
  ℕ, ◌≡◌, sym, ◌∙◌, ap, [], ◌++◌, append_assoc, append-nil, Option, some, length, arith, ◌>>=◌,
}
use yggdrasil_go.Binary.{Bytes, IsU64, put_uvarint}
use yggdrasil_go.Wire.Paths.{chop_slice-append, chop_uint-put_uvarint}
use yggdrasil_go.Crypto.{IsPublicKey, IsSignature}
use yggdrasil_go.Messages.Encoding.{check_size_pass, pieces, sizes}
use yggdrasil_go.Wire.{chop_slice, chop_uint}
use yggdrasil_go.Messages.RouterSigReq
use yggdrasil_go.Messages.RouterSigReq.{RouterSigReq}
use yggdrasil_go.Messages.RouterSigReq.Laws as ReqLaws
use yggdrasil_go.Messages.RouterSigRes.{RouterSigRes, size, encode, chop, decode, bytes_for_sig}

pub record IsWellFormed (res : RouterSigRes) : Type 0 where
  pub req_formed : ReqLaws.IsWellFormed res.req
  pub port_u64 : IsU64 res.port
  pub psig_size : IsSignature res.psig

pub body : RouterSigRes → Bytes
body res = ReqLaws.body res.req ++ (put_uvarint res.port ++ res.psig)

pub length-body : (res : RouterSigRes) → length (body res) ≡ size res
unfolding body size
length-body res = simp (sizes, ReqLaws.length-body) (omega arith)

pub encode-body : (out : Bytes) (res : RouterSigRes) → encode out res ≡ some (out ++ body res)
unfolding encode body
encode-body out res =
    simp (ReqLaws.encode-body, pieces) (check_size_pass out (body res) (size res) (length-body res))

pub chop-body :
    (res : RouterSigRes) (rest : Bytes)
    → IsWellFormed res
    → chop (body res ++ rest) ≡ some (res, rest)
unfolding chop body
chop-body res rest w = rw (
  append_assoc (ReqLaws.body res.req) (put_uvarint res.port ++ res.psig) rest,
  append_assoc (put_uvarint res.port) res.psig rest,
  ReqLaws.chop-body res.req _ w.req_formed,
  chop_uint-put_uvarint res.port _ w.port_u64,
  chop_slice-append _ res.psig rest w.psig_size,
)

decode-body : (res : RouterSigRes) → IsWellFormed res → decode (body res) ≡ some res
unfolding decode
decode-body res w = rw (← append-nil (body res)) (rw (chop-body res [] w))

-- A well-formed response is encoded without a panic: `encode` appends as many bytes as `size` says,
-- and `decode` reads the response back from them.
pub router_sig_res_round_trip :
    (out : Bytes) (res : RouterSigRes)
    → IsWellFormed res
    → (bs : Bytes) × (encode out res ≡ some (out ++ bs))
      × (length bs ≡ size res)
      × (decode bs ≡ some res)
router_sig_res_round_trip out res w =
    (body res, encode-body out res, length-body res, decode-body res w)

-- What is signed, piece after piece.
unfoldable pub signed : Bytes → Bytes → RouterSigRes → Bytes
signed node parent res = node ++ (parent ++ (ReqLaws.body res.req ++ put_uvarint res.port))

pub bytes_for_sig-signed :
    (node parent : Bytes) (res : RouterSigRes)
    → bytes_for_sig node parent res ≡ some (signed node parent res)
unfolding bytes_for_sig signed
bytes_for_sig-signed node parent res =
    unfold RouterSigReq.bytes_for_sig in simp (ReqLaws.encode-body, pieces)

-- Reads back what was signed.
unsigned : Bytes → Option (Bytes × Bytes × RouterSigReq × ℕ)
unsigned bs = do
  (node, bs1) ← chop_slice 32 bs
  (parent, bs2) ← chop_slice 32 bs1
  (req, bs3) ← RouterSigReq.chop bs2
  (port, bs4) ← chop_uint bs3
  some (node, parent, req, port)

unsigned-signed :
    (node parent : Bytes) (res : RouterSigRes)
    → IsPublicKey node
    → IsPublicKey parent
    → IsWellFormed res
    → unsigned (signed node parent res) ≡ some (node, parent, res.req, res.port)
unfolding unsigned signed
unsigned-signed node parent res n p w = rw (
  chop_slice-append 32 node _ n,
  chop_slice-append 32 parent _ p,
  ReqLaws.chop-body res.req _ w.req_formed,
  ← append-nil (put_uvarint res.port),
  chop_uint-put_uvarint res.port [] w.port_u64,
)

-- A signature binds what it was made for: if the signed bytes of two well-formed responses are the
-- same, so are the node's and the parent's keys, the sequence number, the nonce and the port.
pub bytes_for_sig_injective :
    (node parent node' parent' : Bytes) (res res' : RouterSigRes)
    → IsPublicKey node
    → IsPublicKey parent
    → IsPublicKey node'
    → IsPublicKey parent'
    → IsWellFormed res
    → IsWellFormed res'
    → bytes_for_sig node parent res ≡ bytes_for_sig node' parent' res'
    → (node ≡ node') × (parent ≡ parent') × (res.req ≡ res'.req) × (res.port ≡ res'.port)
bytes_for_sig_injective node parent node' parent' res res' n p n' p' w w' e = ground (arith, back)
  where
    back :
        ◌≡◌ {A = Option (Bytes × Bytes × RouterSigReq × ℕ)}
          (some (node, parent, res.req, res.port))
          (some (node', parent', res'.req, res'.port))
    back =
        sym (unsigned-signed node parent res n p w)
        ∙ ap (λ o. o >>= unsigned)
            (sym (bytes_for_sig-signed node parent res)
              ∙ e
              ∙ bytes_for_sig-signed node' parent' res')
        ∙ unsigned-signed node' parent' res' n' p' w'

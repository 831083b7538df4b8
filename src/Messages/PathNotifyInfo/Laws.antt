-- ===== src/Messages/PathNotifyInfo/Laws.antt =====
-- The bytes of the coordinates and how they are read, and when two of them count as equal.
use yggdrasil_go.Base.{
  ◌↔◌, ==_refl, ℕ, ◌≡◌, refl, List, [], ◌∷◌, ◌++◌, some, length, All, arith, true,
}
use yggdrasil_go.Binary.{Bytes, IsU64, put_uvarint}
use yggdrasil_go.Wire.Paths.{
  IsPort, path_bytes, chop_path-path_bytes, chop_slice_all, chop_uint-put_uvarint,
}
use yggdrasil_go.Crypto.{IsSignature}
use yggdrasil_go.Messages.Encoding.{check_size_pass, pieces, sizes}
use yggdrasil_go.Messages.PathNotifyInfo.{PathNotifyInfo, size, encode, decode, equal, equal_ports}

pub record IsWellFormed (info : PathNotifyInfo) : Type 0 where
  pub seq_u64 : IsU64 info.seq
  pub path_ports : All IsPort info.path
  pub sig_size : IsSignature info.sig

pub body : PathNotifyInfo → Bytes
body info = put_uvarint info.seq ++ (path_bytes info.path ++ info.sig)

pub length-body : (info : PathNotifyInfo) → length (body info) ≡ size info
unfolding body size
length-body info = simp sizes (omega arith)

pub encode-body : (out : Bytes) (info : PathNotifyInfo) → encode out info ≡ some (out ++ body info)
unfolding encode body
encode-body out info = simp pieces (check_size_pass out (body info) (size info) (length-body info))

pub decode-body : (info : PathNotifyInfo) → IsWellFormed info → decode (body info) ≡ some info
unfolding decode body
decode-body info w = rw (
  chop_uint-put_uvarint info.seq _ w.seq_u64,
  chop_path-path_bytes [] info.path _ w.path_ports,
  chop_slice_all _ info.sig w.sig_size,
)

-- A well-formed record of coordinates is encoded without a panic: `encode` appends as many bytes as `size` says,
-- and `decode` reads the record of coordinates back from them.
pub path_notify_info_round_trip :
    (out : Bytes) (info : PathNotifyInfo)
    → IsWellFormed info
    → (bs : Bytes) × (encode out info ≡ some (out ++ bs))
      × (length bs ≡ size info)
      × (decode bs ≡ some info)
path_notify_info_round_trip out info w =
    (body info, encode-body out info, length-body info, decode-body info w)

equal_ports_eq : (ps qs : List ℕ) → length ps ≡ length qs → equal_ports ps qs ≡ true → ps ≡ qs
unfolding equal_ports
equal_ports_eq [] [] l h = refl
equal_ports_eq [] (q ∷ qs) l h = absurd (omega arith)
equal_ports_eq (p ∷ ps) [] l h = absurd (omega arith)
equal_ports_eq (p ∷ ps) (q ∷ qs) l h = ground (arith, equal_ports_eq ps qs (omega arith))

equal_ports_refl : (ps : List ℕ) → equal_ports ps ps ≡ true
unfolding equal_ports
equal_ports_refl [] = refl
equal_ports_refl (p ∷ ps) = ground (arith, equal_ports_refl ps)

-- `equal` holds exactly for the same sequence number and the same path, whatever the signatures.
pub equal_iff :
    (info cmp : PathNotifyInfo)
    → (equal info cmp ≡ true) ↔ ((info.seq ≡ cmp.seq) × (info.path ≡ cmp.path))
unfolding equal
equal_iff info cmp = (
  same,
  λ (s, p). rw (s, p, ==_refl cmp.seq, ==_refl (length cmp.path)) (equal_ports_refl cmp.path),
)
  where
    same : equal info cmp ≡ true → (info.seq ≡ cmp.seq) × (info.path ≡ cmp.path)
    same h = ground (arith, equal_ports_eq info.path cmp.path)

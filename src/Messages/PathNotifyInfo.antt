-- ===== src/Messages/PathNotifyInfo.antt =====
-- ironwood/network/pathfinder.go: pathNotifyInfo, a node's signed coordinates in the tree.
pub mod Laws
use yggdrasil_go.Base.{
  ℕ, ◌+◌, ◌-◌, ◌≡◌, ◌≢◌, refl, sym, ◌∙◌, ap, List, [], ◌∷◌, ◌++◌, append_assoc, append-nil, Option,
  none, some, length, length-append, All, arith, ◌>>=◌, ◌>>◌, require, ◌==◌, Bool, true, false,
  ◌&&◌, not, if◌then◌else◌, ◌||◌,
}
use yggdrasil_go.Binary.{Bytes, IsU64, put_uvarint}
use yggdrasil_go.Wire.{chop_slice, chop_uint, chop_path, size_uint, size_path}
use yggdrasil_go.Wire.{
  append_uint, append_path, check_size, WirePacketType, proto_path_lookup, proto_path_notify,
  proto_path_broken,
}
use yggdrasil_go.Crypto.{public_key_size, signature_size}

pub record PathNotifyInfo : Type 0 where
  pub seq : ℕ
  pub path : List ℕ
  pub sig : Bytes

equal_ports : List ℕ → List ℕ → Bool
equal_ports [] cmp = true
equal_ports (p ∷ ps) [] = true
equal_ports (p ∷ ps) (q ∷ qs) = let rest = equal_ports ps qs in if p == q then rest else false

-- The sequence numbers, the lengths and the ports are compared; the signature is not.
unfoldable pub equal : PathNotifyInfo → PathNotifyInfo → Bool
unfolding equal_ports
equal info cmp =
    if not (info.seq == cmp.seq)
    then false
    else if not (length info.path == length cmp.path)
    then false
    else equal_ports info.path cmp.path

unfoldable pub bytes_for_sig : PathNotifyInfo → Bytes
bytes_for_sig info = append_path (append_uint [] info.seq) info.path

-- `sign_with` is the private key's method `sign`.
unfoldable pub sign : (Bytes → Bytes) → PathNotifyInfo → PathNotifyInfo
unfolding bytes_for_sig
sign sign_with info = record info { sig = sign_with (bytes_for_sig info) }

unfoldable pub size : PathNotifyInfo → ℕ
size info = size_uint info.seq + size_path info.path + length info.sig

unfoldable pub encode : Bytes → PathNotifyInfo → Option Bytes
unfolding size
encode out info =
    let out1 = append_uint out info.seq in
    let out2 = append_path out1 info.path in
    let out3 = out2 ++ info.sig in check_size (length out) (size info) out3

unfoldable pub decode : Bytes → Option PathNotifyInfo
decode bs = do
  (seq, bs1) ← chop_uint bs
  (path, bs2) ← chop_path [] bs1
  (sig, bs3) ← chop_slice signature_size bs2
  require (length bs3 == 0)
  some (record { seq = seq; path = path; sig = sig })

-- ===== src/Messages/PathNotify/Laws.antt =====
-- The answer to a lookup: its size is exact, and it is read back.
use yggdrasil_go.Base.{◌≡◌, [], ◌++◌, some, length, All, arith}
use yggdrasil_go.Binary.{Bytes, IsU64, put_uvarint}
use yggdrasil_go.Wire.Paths.{
  IsPort, path_bytes, chop_path-path_bytes, chop_slice-append, chop_uint-put_uvarint,
}
use yggdrasil_go.Crypto.{IsPublicKey}
use yggdrasil_go.Messages.Encoding.{check_size_pass, pieces, sizes}
use yggdrasil_go.Messages.PathNotifyInfo.Laws as InfoLaws
use yggdrasil_go.Messages.PathNotify.{PathNotify, size, encode, decode}

pub record IsWellFormed (notify : PathNotify) : Type 0 where
  pub path_ports : All IsPort notify.path
  pub watermark_u64 : IsU64 notify.watermark
  pub source_key : IsPublicKey notify.source
  pub dest_key : IsPublicKey notify.dest
  pub info_formed : InfoLaws.IsWellFormed notify.info

body : PathNotify → Bytes
body notify =
    path_bytes notify.path
    ++ (put_uvarint notify.watermark
        ++ (notify.source ++ (notify.dest ++ InfoLaws.body notify.info)))

length-body : (notify : PathNotify) → length (body notify) ≡ size notify
unfolding body size
length-body notify = simp (sizes, InfoLaws.length-body) (omega arith)

encode-body : (out : Bytes) (notify : PathNotify) → encode out notify ≡ some (out ++ body notify)
unfolding encode body
encode-body out notify =
    simp (InfoLaws.encode-body, pieces)
      (check_size_pass out (body notify) (size notify) (length-body notify))

decode-body : (notify : PathNotify) → IsWellFormed notify → decode (body notify) ≡ some notify
unfolding decode body
decode-body notify w = rw (
  chop_path-path_bytes [] notify.path _ w.path_ports,
  chop_uint-put_uvarint notify.watermark _ w.watermark_u64,
  chop_slice-append _ notify.source _ w.source_key,
  chop_slice-append _ notify.dest _ w.dest_key,
  InfoLaws.decode-body notify.info w.info_formed,
)

-- A well-formed answer is encoded without a panic: `encode` appends as many bytes as `size` says,
-- and `decode` reads the answer back from them.
pub path_notify_round_trip :
    (out : Bytes) (notify : PathNotify)
    → IsWellFormed notify
    → (bs : Bytes) × (encode out notify ≡ some (out ++ bs))
      × (length bs ≡ size notify)
      × (decode bs ≡ some notify)
path_notify_round_trip out notify w =
    (body notify, encode-body out notify, length-body notify, decode-body notify w)

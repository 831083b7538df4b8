-- ===== src/Handshake/Agreement.antt =====
-- The two ends of a link: what `encode` writes, `decode` reads and accepts.
use yggdrasil_go.Base.{
  ◌-◌, ◌≡◌, refl, ◌∙◌, ◌++◌, Option, some, Bool, true, false, not, if◌then◌else◌, length,
  length-append, take-length_append, drop-length_append, arith,
}
use yggdrasil_go.Binary.{Bytes}
use yggdrasil_go.Handshake.{
  VersionMetadata, HandshakeError, failed, done, then_do, hash_key, encode, decode_loop, decode_tlv,
  verify_signature, decode,
}
use yggdrasil_go.Handshake.Fields.{tlv, decode_loop-tlv}
use yggdrasil_go.Handshake.Laws.{IsWellFormed, fields, empty_metadata, fields-IsField, set_all}
use yggdrasil_go.Handshake.RoundTrip.{encode_fields-tlv, fields_short, packed, decode_tlv-packed}

hash_key_lem :
    (new_512 : Bytes → Bytes → Option Bytes) (password key hash : Bytes)
    → new_512 password key ≡ some hash
    → length key ≡ 32
    → hash_key new_512 password key ≡ done hash
unfolding hash_key
hash_key_lem new_512 password key hash e l = rw (e, hash_key) (rw l refl)

-- The fields and the signature are found again.
decode_tlv-encoded :
    (m : VersionMetadata) (sig rest : Bytes)
    → IsWellFormed m
    → length sig ≡ 64
    → decode_tlv (packed (tlv (fields m) ++ sig) ++ rest) empty_metadata ≡ done (sig, m)
unfolding then_do
decode_tlv-encoded m sig rest w l =
    let fs = tlv (fields m) in
    let total = length-append fs sig in
    let short = fields_short m w in
    let cut : length (fs ++ sig) - 64 ≡ length fs = omega (arith, total, l) in
    let read : decode_loop (length fs) fs empty_metadata ≡ done m =
      decode_loop-tlv (length fs) (fields m) empty_metadata (fields-IsField m w) (omega arith)
      ∙ set_all m w in
    decode_tlv-packed (fs ++ sig) rest empty_metadata (omega (arith, total, l))
      (omega (arith, total, l, short))
    ∙ rw (cut, take-length_append fs sig, drop-length_append fs sig) (rw read refl)

-- What a node encodes, a node reads back whole from whatever begins with it, if the signature is
-- valid for the hash that its own password gives; otherwise it reports
-- `ErrHandshakeIncorrectPassword`. The metadata is well-formed, blake2b takes both passwords as
-- keys, and a signature has 64 bytes.
pub handshake_round_trip :
    (new_512 : Bytes → Bytes → Option Bytes) (sign : Bytes → Bytes)
    (verify : Bytes → Bytes → Bytes → Bool) (password password' rest hash hash' : Bytes)
    (m : VersionMetadata)
    → IsWellFormed m
    → new_512 password m.public_key ≡ some hash
    → new_512 password' m.public_key ≡ some hash'
    → length (sign hash) ≡ 64
    → (bs : Bytes) × (encode new_512 sign password m ≡ done bs)
      × (decode new_512 verify (bs ++ rest) password' empty_metadata ≡ (
          if verify m.public_key hash' (sign hash)
          then done m
          else failed HandshakeError.incorrect_password))
unfolding encode decode verify_signature then_do
handshake_round_trip new_512 sign verify password password' rest hash hash' m w e e' l = (
  packed (tlv (fields m) ++ sign hash),
  rw (encode_fields-tlv m w)
      (rw (hash_key_lem new_512 password m.public_key hash e w.key_size) refl),
  rw (decode_tlv-encoded m (sign hash) rest w l) (
      rw (hash_key_lem new_512 password' m.public_key hash' e' w.key_size)
        (outcome (verify m.public_key hash' (sign hash)))),
)
  where
    outcome :
        (ok : Bool)
        → then_do
            (if not ok then failed HandshakeError.incorrect_password else done tt)
            (λ u. done m)
          ≡ (if ok then done m else failed HandshakeError.incorrect_password)
    outcome true = refl
    outcome false = refl

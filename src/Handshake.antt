-- ===== src/Handshake.antt =====
-- src/core/version.go: the metadata that the two ends of a link exchange before anything else. The
-- hash and the signature scheme are parameters: `new_512 password message` is blake2b-512 of the
-- message with the key, `none` where the key is refused, `sum_512` is blake2b.Sum512, `sign` signs
-- with the private key and `verify` takes a key, the signed bytes and a signature. A reader is the
-- bytes that it gives.
pub mod Fields
pub mod Laws
pub mod RoundTrip
pub mod Agreement
use yggdrasil_go.Base.{
  ℕ, zero, suc, ◌+◌, ◌-◌, ◌%◌, ◌^◌, List, [], ◌∷◌, ◌++◌, Option, none, some, Bool, true, false, not,
  ltb, leb, ◌==◌, if◌then◌else◌, length, take, drop,
}
use yggdrasil_go.Binary.{Bytes, be16, get_be16, be64, get_be64}
use yggdrasil_go.Crypto.{equal, public_key_size, signature_size}

pub record VersionMetadata : Type 0 where
  pub major_ver : ℕ
  pub minor_ver : ℕ
  pub public_key : Bytes
  pub priority : ℕ
  pub features : ℕ
  pub community_proof : Bytes
  pub node_info : Bytes

-- `end_of_input` is the error of io.ReadFull, and the two about the node information are made in
-- place.
pub data HandshakeError : Type 0 where
  invalid_preamble invalid_length invalid_password hash_failure : HandshakeError
  incorrect_password community_required community_mismatch : HandshakeError
  end_of_input node_info_too_long received_node_info_too_long : HandshakeError

pub data Result (A : Type 0) : Type 0 where
  failed : HandshakeError → Result A
  done : A → Result A

unfoldable pub then_do : {A B : Type 0} → Result A → (A → Result B) → Result B
then_do (failed e) f = failed e
then_do (done a) f = f a

abbrev pub protocol_version_major : ℕ
protocol_version_major = 0

abbrev pub protocol_version_minor : ℕ
protocol_version_minor = 5

abbrev pub feature_community : ℕ
feature_community = 1

-- metaVersionMajor to metaNodeInfo are 0 to 6, by `iota`.
abbrev pub meta_version_major : ℕ
meta_version_major = 0

abbrev pub meta_version_minor : ℕ
meta_version_minor = 1

abbrev pub meta_public_key : ℕ
meta_public_key = 2

abbrev pub meta_priority : ℕ
meta_priority = 3

abbrev pub meta_features : ℕ
meta_features = 4

abbrev pub meta_community_proof : ℕ
meta_community_proof = 5

abbrev pub meta_node_info : ℕ
meta_node_info = 6

unfoldable pub version_get_base_metadata : VersionMetadata
version_get_base_metadata = record {
  major_ver = protocol_version_major;
  minor_ver = protocol_version_minor;
  public_key = [];
  priority = 0;
  features = 0;
  community_proof = [];
  node_info = [];
}

-- blake2b.Size is 64.
unfoldable pub community_proof_key : (Bytes → Bytes) → Bytes → Bytes
community_proof_key sum_512 community =
    if leb (length community) 64 then community else sum_512 community

unfoldable pub new_community_proof :
    (Bytes → Bytes → Option Bytes) → (Bytes → Bytes) → Bytes → Bytes → Option Bytes
new_community_proof new_512 sum_512 community pub_key =
    new_512 (community_proof_key sum_512 community) pub_key

unfoldable pub verify_community_proof :
    (Bytes → Bytes → Option Bytes) → (Bytes → Bytes) → Bytes → Bytes → Bytes → Bool
verify_community_proof new_512 sum_512 community proof pub_key =
    elim (new_community_proof new_512 sum_512 community pub_key) [
      | none ↦ false
      | some expected ↦ equal expected proof
    ]

-- Type, length and value of a field. The length is a uint16.
unfoldable pub append_field : Bytes → ℕ → Bytes → Bytes
append_field bs op field = ((bs ++ be16 op) ++ be16 (length field % 2 ^ 16)) ++ field

-- The fields of `encode`, before the hash and the signature.
unfoldable pub encode_fields : VersionMetadata → Bytes → Result Bytes
encode_fields m bs =
    let bs1 = append_field bs meta_version_major (be16 m.major_ver) in
    let bs2 = append_field bs1 meta_version_minor (be16 m.minor_ver) in
    let bs3 = append_field bs2 meta_public_key m.public_key in
    let bs4 = append_field bs3 meta_priority (m.priority ∷ []) in
    let bs5 = if m.features == 0 then bs4 else append_field bs4 meta_features (be64 m.features) in
    let bs6 =
      if ltb 0 (length m.community_proof)
      then append_field bs5 meta_community_proof m.community_proof
      else bs5 in
    if not (ltb 0 (length m.node_info))
    then done bs6
    else if ltb 16384 (length m.node_info)
    then failed node_info_too_long
    else done (append_field bs6 meta_node_info m.node_info)

-- The hash that is signed.
unfoldable pub hash_key : (Bytes → Bytes → Option Bytes) → Bytes → Bytes → Result Bytes
hash_key new_512 password public_key = elim (new_512 password public_key) [
  | none ↦ failed invalid_password
  | some hash ↦ if length public_key == public_key_size then done hash else failed hash_failure
]

-- "meta"
abbrev pub preamble : Bytes
preamble = 109 ∷ 101 ∷ 116 ∷ 97 ∷ []

-- The placeholder of the length is filled in at the end.
unfoldable pub encode :
    (Bytes → Bytes → Option Bytes) → (Bytes → Bytes) → Bytes → VersionMetadata → Result Bytes
encode new_512 sign password m = then_do (encode_fields m []) λ fields.
    then_do (hash_key new_512 password m.public_key) λ hash.
      let body = fields ++ sign hash in done (preamble ++ (be16 (length body % 2 ^ 16) ++ body))

-- The `switch` of the loop: the field of type `op`, with a value of `length field` bytes.
unfoldable pub set_field : ℕ → Bytes → VersionMetadata → Result VersionMetadata
set_field op field m =
    if op == meta_version_major
    then (if not (length field == 2)
        then failed invalid_length
        else done (record m { major_ver = get_be16 field }))
    else if op == meta_version_minor
    then (if not (length field == 2)
        then failed invalid_length
        else done (record m { minor_ver = get_be16 field }))
    else if op == meta_public_key
    then (if not (length field == public_key_size)
        then failed invalid_length
        else done (record m { public_key = field }))
    else if op == meta_priority
    then set_priority field m
    else if op == meta_features
    then (if leb 8 (length field)
        then done (record m { features = get_be64 (take 8 field) })
        else done m)
    else if op == meta_community_proof
    then done (record m { community_proof = field })
    else if op == meta_node_info
    then (if ltb 16384 (length field)
        then failed received_node_info_too_long
        else done (record m { node_info = field }))
    else done m
  where
    set_priority : Bytes → VersionMetadata → Result VersionMetadata
    set_priority (b ∷ []) m = done (record m { priority = b })
    set_priority _ m = failed invalid_length

-- The loop of `decodeTLV`, with what follows it. A round takes four bytes at least, so a round for
-- each byte is enough.
unfoldable pub decode_loop : ℕ → Bytes → VersionMetadata → Result VersionMetadata
decode_loop zero bs m = if length bs == 0 then done m else failed invalid_length
decode_loop (suc fuel) bs m = elim (ltb (length bs) 4) [
  | true ↦ if length bs == 0 then done m else failed invalid_length
  | false ↦
      let op = get_be16 (take 2 bs) in
      let oplen = get_be16 (take 2 (drop 2 bs)) in
      let rest = drop 4 bs in
      elim (ltb (length rest) oplen) [
        | true ↦ failed invalid_length
        | false ↦ then_do (set_field op (take oplen rest) m) (decode_loop fuel (drop oplen rest))
      ]
]

-- The signature and the metadata.
unfoldable pub decode_tlv : Bytes → VersionMetadata → Result (Bytes × VersionMetadata)
decode_tlv r m =
    let bh = take 6 r in
    let hl = get_be16 (drop 4 bh) in
    let bs = take hl (drop 6 r) in
    let fields = take (length bs - signature_size) bs in
    let sig = drop (length bs - signature_size) bs in
    if ltb (length r) 6
    then failed end_of_input
    else if not (equal (take 4 bh) preamble)
    then failed invalid_preamble
    else if ltb hl signature_size
    then failed invalid_length
    else if ltb (length (drop 6 r)) hl
    then failed end_of_input
    else then_do (decode_loop (length fields) fields m) λ m'. done (sig, m')

unfoldable pub verify_signature :
    (Bytes → Bytes → Option Bytes)
    → (Bytes → Bytes → Bytes → Bool)
    → Bytes
    → Bytes
    → VersionMetadata
    → Result (Unit {0})
verify_signature new_512 verify sig password m =
    then_do (hash_key new_512 password m.public_key)
      λ hash. if not (verify m.public_key hash sig) then failed incorrect_password else done tt

unfoldable pub decode :
    (Bytes → Bytes → Option Bytes)
    → (Bytes → Bytes → Bytes → Bool)
    → Bytes
    → Bytes
    → VersionMetadata
    → Result VersionMetadata
decode new_512 verify r password m =
    then_do (decode_tlv r m)
      λ (sig, m'). then_do (verify_signature new_512 verify sig password m') λ ok. done m'

unfoldable pub check : VersionMetadata → Bool
check m =
    if not (m.major_ver == protocol_version_major)
    then false
    else if not (m.minor_ver == protocol_version_minor)
    then false
    else if not (length m.public_key == public_key_size)
    then false
    else true

-- ===== src/Handshake/RoundTrip.antt =====
-- The bytes that `encode` writes, and the header that `decodeTLV` takes off them.
use yggdrasil_go.Base.{
  ℕ, ◌+◌, ◌-◌, ◌%◌, ◌^◌, ◌<◌, ◌≤◌, ◌≡◌, refl, sym, ap, List, [], ◌∷◌, ◌++◌, inl, inr, Bool,
  Bool-cases, true, false, not, ltb, not_lt→ltb, ◌==◌, if◌then◌else◌, length, length-append,
  append-nil, take, drop, take-length_append, arith,
}
use yggdrasil_go.Binary.{Bytes, be16, get_be16, be64, length-be16, length-be64}
use yggdrasil_go.Crypto.{equal}
use yggdrasil_go.Handshake.{
  VersionMetadata, HandshakeError, failed, done, then_do, append_field, encode_fields, decode_loop,
  decode_tlv, preamble,
}
use yggdrasil_go.Handshake.Fields.{tlv, tlv-append, append_field-tlv}
use yggdrasil_go.Handshake.Laws.{
  IsWellFormed, base_fields, features_field, proof_field, info_field, to_features, to_proof, fields,
}

module _ (m : VersionMetadata) (w : IsWellFormed m) where
  append_base :
      append_field
        (append_field
          (append_field (append_field [] 0 (be16 m.major_ver)) 1 (be16 m.minor_ver))
          2
          m.public_key)
        3
        (m.priority ∷ [])
      ≡ tlv (base_fields m)
  append_base =
      rw
        (
          append_field-tlv [] 0 (be16 m.major_ver) (omega (arith, length-be16 m.major_ver)),
          append_field-tlv _ 1 (be16 m.minor_ver) (omega (arith, length-be16 m.minor_ver)),
          append_field-tlv _ 2 m.public_key (omega (arith, w.key_size)),
          append_field-tlv _ 3 (m.priority ∷ []) (omega arith),
        )
        refl

  pub encode_fields-tlv : encode_fields m [] ≡ done (tlv (fields m))
  unfolding encode_fields
  encode_fields-tlv = rw append_base (rw features (rw proof info))
    where
      features :
          (if m.features == 0
            then tlv (base_fields m)
            else append_field (tlv (base_fields m)) 4 (be64 m.features))
          ≡ tlv (to_features m)
      features = elim (Bool-cases (m.features == 0)) [
        | inl e ↦ rw e (ap tlv (sym (append-nil (base_fields m))))
        | inr e ↦ rw e (
            append_field-tlv (base_fields m) 4 (be64 m.features)
              (omega (arith, length-be64 m.features)))
      ]

      proof :
          (if ltb 0 (length m.community_proof)
            then append_field (tlv (to_features m)) 5 m.community_proof
            else tlv (to_features m))
          ≡ tlv (to_proof m)
      proof = elim (Bool-cases (ltb 0 (length m.community_proof))) [
        | inl e ↦
            rw e
              (append_field-tlv (to_features m) 5 m.community_proof (omega (arith, w.proof_size)))
        | inr e ↦ rw e (ap tlv (sym (append-nil (to_features m))))
      ]

      info :
          (if not (ltb 0 (length m.node_info))
            then done (tlv (to_proof m))
            else if ltb 16384 (length m.node_info)
            then failed HandshakeError.node_info_too_long
            else done (append_field (tlv (to_proof m)) 6 m.node_info))
          ≡ done (tlv (fields m))
      info = elim (Bool-cases (ltb 0 (length m.node_info))) [
        | inl e ↦
            let s = not_lt→ltb 16384 (length m.node_info) w.info_size in
            rw (e, s)
              (ap done (append_field-tlv (to_proof m) 6 m.node_info (omega (arith, w.info_size))))
        | inr e ↦ rw e (ap (λ x. done (tlv x)) (sym (append-nil (to_proof m))))
      ]

length-tlv :
    (op : ℕ) (field : Bytes) (fs : List (ℕ × Bytes))
    → length (tlv ((op, field) ∷ fs)) ≡ 4 + length field + length (tlv fs)
length-tlv op field fs = omega (
  arith,
  length-append (be16 op) (be16 (length field) ++ (field ++ tlv fs)),
  length-append (be16 (length field)) (field ++ tlv fs),
  length-append field (tlv fs),
  length-be16 op,
  length-be16 (length field),
)

opt_length :
    (fs : List (ℕ × Bytes)) (op : ℕ) (field : Bytes) (n : ℕ)
    → 4 + length field ≤ n
    → (b : Bool)
    → (length (tlv (if b then [] else (op, field) ∷ [])) ≤ n)
      × (length (tlv (if b then (op, field) ∷ [] else [])) ≤ n)
opt_length fs op field n h true = (omega arith, omega (arith, length-tlv op field []))
opt_length fs op field n h false = (omega (arith, length-tlv op field []), omega arith)

pub fields_short : (m : VersionMetadata) → IsWellFormed m → length (tlv (fields m)) ≤ 16600
fields_short m w = omega (
  arith,
  ap length (tlv-append (to_proof m) (info_field m)),
  length-append (tlv (to_proof m)) (tlv (info_field m)),
  ap length (tlv-append (to_features m) (proof_field m)),
  length-append (tlv (to_features m)) (tlv (proof_field m)),
  ap length (tlv-append (base_fields m) (features_field m)),
  length-append (tlv (base_fields m)) (tlv (features_field m)),
  length-tlv 0 (be16 m.major_ver)
      ((1, be16 m.minor_ver) ∷ (2, m.public_key) ∷ (3, m.priority ∷ []) ∷ []),
  length-tlv 1 (be16 m.minor_ver) ((2, m.public_key) ∷ (3, m.priority ∷ []) ∷ []),
  length-tlv 2 m.public_key ((3, m.priority ∷ []) ∷ []),
  length-tlv 3 (m.priority ∷ []) [],
  length-be16 m.major_ver,
  length-be16 m.minor_ver,
  w.key_size,
  features,
  proof,
  info,
)
  where
    features : length (tlv (features_field m)) ≤ 12
    features = (opt_length [] 4 (be64 m.features) 12 (omega (arith, length-be64 m.features)) _).0

    proof : length (tlv (proof_field m)) ≤ 68
    proof = (opt_length [] 5 m.community_proof 68 (omega (arith, w.proof_size)) _).1

    info : length (tlv (info_field m)) ≤ 16388
    info = (opt_length [] 6 m.node_info 16388 (omega (arith, w.info_size)) _).0

decode_tlv_lem :
    (r body rest : Bytes) (m : VersionMetadata)
    → ltb (length r) 6 ≡ false
    → equal (take 4 (take 6 r)) preamble ≡ true
    → get_be16 (drop 4 (take 6 r)) ≡ length body
    → drop 6 r ≡ body ++ rest
    → 64 ≤ length body
    → decode_tlv r m
      ≡ then_do
          (decode_loop (length (take (length body - 64) body)) (take (length body - 64) body) m)
          (λ m'. done (drop (length body - 64) body, m'))
unfolding decode_tlv
decode_tlv_lem r body rest m long pre len behind big =
    let enough : ltb (length (body ++ rest)) (length body) ≡ false =
      not_lt→ltb _ _ (omega (arith, length-append body rest)) in
    let sig : ltb (length body) 64 ≡ false = not_lt→ltb (length body) 64 big in
    rw (len, behind, take-length_append body rest) (rw (long, pre) (rw (sig, enough) refl))

-- What `encode` returns.
abbrev pub packed : Bytes → Bytes
packed body = preamble ++ (be16 (length body % 2 ^ 16) ++ body)

pub decode_tlv-packed :
    (body rest : Bytes) (m : VersionMetadata)
    → 64 ≤ length body
    → length body < 2 ^ 16
    → decode_tlv (packed body ++ rest) m
      ≡ then_do
          (decode_loop (length (take (length body - 64) body)) (take (length body - 64) body) m)
          (λ m'. done (drop (length body - 64) body, m'))
unfolding be16 equal get_be16
decode_tlv-packed body rest m big small =
    decode_tlv_lem (packed body ++ rest) body rest m (ground arith) refl (omega arith) refl big

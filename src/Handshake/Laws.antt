-- ===== src/Handshake/Laws.antt =====
-- The metadata that one end encodes, the other end decodes.
use yggdrasil_go.Base.{
  ℕ, ◌+◌, ◌%◌, ◌≤◌, ◌≡◌, refl, sym, ◌∙◌, ap, List, [], ◌∷◌, ◌++◌, append-nil, ◌*◌, ◌/◌, inl, inr,
  Bool-cases, false, not, ltb, not_lt→ltb, ◌==◌, ==_iff, if◌then◌else◌, length, take,
  take-length_append, All, All-append, arith,
}
use yggdrasil_go.Binary.{
  Bytes, IsU16, IsU64, be16, get_be16, be64, get_be64, length-be16, length-be64, get_be64-be64,
}
use yggdrasil_go.Handshake.{VersionMetadata, done, then_do, set_field}
use yggdrasil_go.Handshake.Fields.{IsField, set_fields, set_fields-append}

-- What the types of the fields and the checks of the configuration guarantee.
pub record IsWellFormed (m : VersionMetadata) : Type 0 where
  pub major_u16 : IsU16 m.major_ver
  pub minor_u16 : IsU16 m.minor_ver
  pub key_size : length m.public_key ≡ 32
  pub features_u64 : IsU64 m.features
  pub proof_size : length m.community_proof ≤ 64
  pub info_size : length m.node_info ≤ 16384

-- The fields in the order of `encode`.
abbrev pub base_fields : VersionMetadata → List (ℕ × Bytes)
base_fields m =
    (0, be16 m.major_ver) ∷ (1, be16 m.minor_ver) ∷ (2, m.public_key) ∷ (3, m.priority ∷ []) ∷ []

abbrev pub features_field : VersionMetadata → List (ℕ × Bytes)
features_field m = if m.features == 0 then [] else (4, be64 m.features) ∷ []

abbrev pub proof_field : VersionMetadata → List (ℕ × Bytes)
proof_field m = if ltb 0 (length m.community_proof) then (5, m.community_proof) ∷ [] else []

abbrev pub info_field : VersionMetadata → List (ℕ × Bytes)
info_field m = if not (ltb 0 (length m.node_info)) then [] else (6, m.node_info) ∷ []

abbrev pub to_features : VersionMetadata → List (ℕ × Bytes)
to_features m = base_fields m ++ features_field m

abbrev pub to_proof : VersionMetadata → List (ℕ × Bytes)
to_proof m = to_features m ++ proof_field m

abbrev pub fields : VersionMetadata → List (ℕ × Bytes)
fields m = to_proof m ++ info_field m

abbrev pub empty_metadata : VersionMetadata
empty_metadata = record {
  major_ver = 0;
  minor_ver = 0;
  public_key = [];
  priority = 0;
  features = 0;
  community_proof = [];
  node_info = [];
}

take_all : (bs : Bytes) → take (length bs) bs ≡ bs
take_all bs = ap (take (length bs)) (sym (append-nil bs)) ∙ take-length_append bs []

no_bytes : (bs : Bytes) → ltb 0 (length bs) ≡ false → bs ≡ []
no_bytes [] e = refl
no_bytes (b ∷ bs) e = absurd (ground arith)

module _ (m : VersionMetadata) (w : IsWellFormed m) where
  pub fields-IsField : All IsField (fields m)
  fields-IsField =
      All-append IsField (to_proof m) (info_field m)
        (All-append IsField (to_features m) (proof_field m)
          (All-append IsField (base_fields m) (features_field m) base features) proof)
        info
    where
      base : All IsField (base_fields m)
      base = (
        (omega arith, omega (arith, length-be16 m.major_ver)),
        (
          (omega arith, omega (arith, length-be16 m.minor_ver)),
          ((omega arith, omega (arith, w.key_size)), ((omega arith, omega arith), tt)),
        ),
      )

      features : All IsField (features_field m)
      features = elim (Bool-cases (m.features == 0)) [
        | inl e ↦ rw e tt
        | inr e ↦ rw e ((omega arith, omega (arith, length-be64 m.features)), tt)
      ]

      proof : All IsField (proof_field m)
      proof = elim (Bool-cases (ltb 0 (length m.community_proof))) [
        | inl e ↦ rw e ((omega arith, omega (arith, w.proof_size)), tt)
        | inr e ↦ rw e tt
      ]

      info : All IsField (info_field m)
      info = elim (Bool-cases (ltb 0 (length m.node_info))) [
        | inl e ↦ rw e ((omega arith, omega (arith, w.info_size)), tt)
        | inr e ↦ rw e tt
      ]

  abbrev with_features : VersionMetadata
  with_features = record empty_metadata {
    major_ver = m.major_ver;
    minor_ver = m.minor_ver;
    public_key = m.public_key;
    priority = m.priority;
    features = m.features;
  }

  abbrev with_proof : VersionMetadata
  with_proof = record with_features { community_proof = m.community_proof }

  set_base :
      set_fields (base_fields m) empty_metadata ≡ done (record with_features { features = 0 })
  unfolding set_field then_do get_be16 be16
  set_base =
      let a : m.major_ver / 256 % 256 * 256 + m.major_ver % 256 ≡ m.major_ver =
        omega (arith, w.major_u16) in
      let b : m.minor_ver / 256 % 256 * 256 + m.minor_ver % 256 ≡ m.minor_ver =
        omega (arith, w.minor_u16) in
      rw (w.key_size) (rw (a, b) refl)

  set_features :
      set_fields (features_field m) (record with_features { features = 0 }) ≡ done with_features
  unfolding set_field then_do
  set_features = elim (Bool-cases (m.features == 0)) [
    | inl e ↦ let z : m.features ≡ 0 = (==_iff m.features 0).0 e in rw (e, z) refl
    | inr e ↦
        let back : get_be64 (be64 m.features) ≡ m.features =
          ap get_be64 (sym (append-nil (be64 m.features)))
          ∙ get_be64-be64 m.features [] w.features_u64 in
        let whole : take 8 (be64 m.features) ≡ be64 m.features =
          ap (λ n. take n (be64 m.features)) (sym (length-be64 m.features))
          ∙ take_all (be64 m.features) in
        rw e (rw (length-be64 m.features) (rw whole (rw back refl)))
  ]

  set_proof : set_fields (proof_field m) with_features ≡ done with_proof
  unfolding set_field then_do
  set_proof = elim (Bool-cases (ltb 0 (length m.community_proof))) [
    | inl e ↦ rw e refl
    | inr e ↦ let z = no_bytes m.community_proof e in rw (e, z) refl
  ]

  set_info : set_fields (info_field m) with_proof ≡ done m
  unfolding set_field then_do
  set_info = elim (Bool-cases (ltb 0 (length m.node_info))) [
    | inl e ↦ let s = not_lt→ltb 16384 (length m.node_info) w.info_size in rw e (rw s refl)
    | inr e ↦ let z = no_bytes m.node_info e in rw (e, z) refl
  ]

  pub set_all : set_fields (fields m) empty_metadata ≡ done m
  set_all =
      let one =
        set_fields-append (base_fields m) (features_field m) empty_metadata _ set_base
        ∙ set_features in
      let two =
        set_fields-append (to_features m) (proof_field m) empty_metadata _ one ∙ set_proof in
      set_fields-append (to_proof m) (info_field m) empty_metadata _ two ∙ set_info

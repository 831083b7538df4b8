-- ===== src/Handshake/Fields.antt =====
-- The loop of `decodeTLV` on a sequence of whole fields.
use yggdrasil_go.Base.{
  ℕ, zero, suc, ◌+◌, ◌%◌, ◌^◌, ◌<◌, ◌≤◌, ◌≡◌, refl, sym, ◌∙◌, ap, List, [], ◌∷◌, ◌++◌, append_assoc,
  append-nil, ◌⊎◌, inl, inr, false, ltb, not_lt→ltb, length, length-append, take, drop,
  take-length_append, drop-length_append, All, arith,
}
use yggdrasil_go.Binary.{Bytes, IsU16, be16, get_be16}
use yggdrasil_go.Handshake.{
  VersionMetadata, HandshakeError, Result, failed, done, then_do, append_field, set_field,
  decode_loop,
}

abbrev pub IsField : ℕ × Bytes → Type 0
IsField (op, field) = IsU16 op × (length field < 2 ^ 16)

-- The bytes of the fields.
abbrev pub tlv : List (ℕ × Bytes) → Bytes
tlv [] = []
tlv ((op, field) ∷ fs) = be16 op ++ (be16 (length field) ++ (field ++ tlv fs))

-- The fields taken in, one after the other.
abbrev pub set_fields : List (ℕ × Bytes) → VersionMetadata → Result VersionMetadata
set_fields [] m = done m
set_fields ((op, field) ∷ fs) m = then_do (set_field op field m) (set_fields fs)

get_be16_own : (v : ℕ) → IsU16 v → get_be16 (be16 v) ≡ v
unfolding get_be16 be16
get_be16_own v h = omega arith

Result-cases :
    {A : Type 0} (r : Result A) → ((e : HandshakeError) × (r ≡ failed e)) ⊎ ((a : A) × (r ≡ done a))
Result-cases (failed e) = inl (e, refl)
Result-cases (done a) = inr (a, refl)

not_done : {A : Type 0} (e : HandshakeError) (a : A) → failed e ≡ done a → ⊥
not_done e a p = cc p

skip :
    (op : ℕ) (field : Bytes) (fs : List (ℕ × Bytes)) (m m' : VersionMetadata)
    → set_field op field m ≡ done m'
    → set_fields ((op, field) ∷ fs) m ≡ set_fields fs m'
unfolding then_do
skip op field fs m m' e = rw (e, then_do)

no_result :
    (op : ℕ) (field : Bytes) (fs : List (ℕ × Bytes)) (m : VersionMetadata) (x : HandshakeError)
    (m' : VersionMetadata)
    → set_field op field m ≡ failed x
    → set_fields ((op, field) ∷ fs) m ≡ done m'
    → ⊥
unfolding then_do
no_result op field fs m x m' e r = not_done x m' (sym (ap (λ s. then_do s (set_fields fs)) e) ∙ r)

pub then_do_cong :
    {A B : Type 0} (r : Result A) (f g : A → Result B)
    → ((a : A) → f a ≡ g a)
    → then_do r f ≡ then_do r g
unfolding then_do
then_do_cong (failed e) f g h = refl
then_do_cong (done a) f g h = h a

round :
    (fuel : ℕ) (bs : Bytes) (m : VersionMetadata)
    → ltb (length bs) 4 ≡ false
    → ltb (length (drop 4 bs)) (get_be16 (take 2 (drop 2 bs))) ≡ false
    → decode_loop (suc fuel) bs m
      ≡ then_do
          (set_field (get_be16 (take 2 bs)) (take (get_be16 (take 2 (drop 2 bs))) (drop 4 bs)) m)
          (decode_loop fuel (drop (get_be16 (take 2 (drop 2 bs))) (drop 4 bs)))
unfolding decode_loop
round fuel bs m e f = rw (e, decode_loop) (rw f)

module _ (op : ℕ) (field rest : Bytes) where
  abbrev bs : Bytes
  bs = be16 op ++ (be16 (length field) ++ (field ++ rest))

  abbrev behind : Bytes
  behind = drop 4 bs

  abbrev oplen : ℕ
  oplen = get_be16 (take 2 (drop 2 bs))

  first : IsU16 op → get_be16 (take 2 bs) ≡ op
  unfolding get_be16 be16
  first u = omega arith

  second : length field < 2 ^ 16 → oplen ≡ length field
  unfolding get_be16 be16
  second l = omega arith

  third : behind ≡ field ++ rest
  unfolding be16
  third = refl

  long : ltb (length bs) 4 ≡ false
  unfolding be16
  long = ground arith

  enough : length field < 2 ^ 16 → ltb (length behind) oplen ≡ false
  enough l =
      not_lt→ltb (length behind) oplen
        (omega (arith, second l, ap length third, length-append field rest))

  field_round :
      (fuel : ℕ) (m : VersionMetadata)
      → IsU16 op
      → length field < 2 ^ 16
      → decode_loop (suc fuel) bs m ≡ then_do (set_field op field m) (decode_loop fuel rest)
  field_round fuel m u l =
      round fuel bs m long (enough l)
      ∙ ap (λ i. then_do (set_field i (take oplen behind) m) (decode_loop fuel (drop oplen behind)))
          (first u)
      ∙ ap (λ i. then_do (set_field op (take i behind) m) (decode_loop fuel (drop i behind)))
          (second l)
      ∙ ap (λ i. then_do (set_field op i m) (decode_loop fuel (drop (length field) behind)))
          (ap (take (length field)) third ∙ take-length_append field rest)
      ∙ ap (λ i. then_do (set_field op field m) (decode_loop fuel i))
          (ap (drop (length field)) third ∙ drop-length_append field rest)

  length-bs : length bs ≡ 4 + length field + length rest
  unfolding be16
  length-bs = omega (arith, length-append field rest)

-- The loop takes in whole fields one after the other.
pub decode_loop-tlv :
    (fuel : ℕ) (fs : List (ℕ × Bytes)) (m : VersionMetadata)
    → All IsField fs
    → length (tlv fs) ≤ fuel
    → decode_loop fuel (tlv fs) m ≡ set_fields fs m
decode_loop-tlv zero [] m h l = unfold decode_loop in refl
decode_loop-tlv (suc fuel) [] m h l = unfold decode_loop in refl
decode_loop-tlv zero ((op, field) ∷ fs) m h l = absurd (omega (arith, length-bs op field (tlv fs)))
decode_loop-tlv (suc fuel) ((op, field) ∷ fs) m h l =
    field_round op field (tlv fs) fuel m h.0.0 h.0.1
    ∙ then_do_cong (set_field op field m) (decode_loop fuel (tlv fs)) (set_fields fs)
        (λ m'. decode_loop-tlv fuel fs m' h.1 (omega (arith, length-bs op field (tlv fs))))

pub tlv-append : (xs ys : List (ℕ × Bytes)) → tlv (xs ++ ys) ≡ tlv xs ++ tlv ys
tlv-append [] ys = refl
tlv-append ((op, field) ∷ xs) ys =
    ap (λ t. be16 op ++ (be16 (length field) ++ (field ++ t))) (tlv-append xs ys)
    ∙ rw
        (
          append_assoc (be16 op) (be16 (length field) ++ (field ++ tlv xs)) (tlv ys),
          append_assoc (be16 (length field)) (field ++ tlv xs) (tlv ys),
          append_assoc field (tlv xs) (tlv ys),
        )
        refl

-- `append_field` adds a field at the end.
pub append_field-tlv :
    (fs : List (ℕ × Bytes)) (op : ℕ) (field : Bytes)
    → length field < 2 ^ 16
    → append_field (tlv fs) op field ≡ tlv (fs ++ ((op, field) ∷ []))
unfolding append_field
append_field-tlv fs op field l =
    let small : length field % 2 ^ 16 ≡ length field = omega arith in
    rw
      (
        small,
        tlv-append fs ((op, field) ∷ []),
        append-nil field,
        append_assoc (tlv fs ++ be16 op) (be16 (length field)) field,
        append_assoc (tlv fs) (be16 op) (be16 (length field) ++ field),
      )
      refl

pub set_fields-append :
    (xs ys : List (ℕ × Bytes)) (m m' : VersionMetadata)
    → set_fields xs m ≡ done m'
    → set_fields (xs ++ ys) m ≡ set_fields ys m'
set_fields-append [] ys m m' e = unfold then_do in ap (λ r. then_do r (set_fields ys)) e
set_fields-append ((op, field) ∷ xs) ys m m' e = elim (Result-cases (set_field op field m)) [
  | inl (x, f) ↦ absurd (no_result op field xs m x m' f e)
  | inr (m1, f) ↦
      let next : set_fields xs m1 ≡ done m' = sym (skip op field xs m m1 f) ∙ e in
      skip op field (xs ++ ys) m m1 f ∙ set_fields-append xs ys m1 m' next
]

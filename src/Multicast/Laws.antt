-- ===== src/Multicast/Laws.antt =====
-- The bytes of a beacon, piece after piece, and how they are read.
use yggdrasil_go.Base.{
  ℕ, zero, suc, ◌+◌, ◌%◌, ◌^◌, ◌≤◌, ◌<◌, ◌≡◌, refl, sym, ◌∙◌, ap, [], ◌∷◌, ◌++◌, some, ltb, false,
  not_lt→ltb, length, length-append, take, drop, take-length_append, append_assoc, arith,
}
use yggdrasil_go.Binary.{Bytes, IsU16, be16, get_be16}
use yggdrasil_go.Crypto.{IsPublicKey}
use yggdrasil_go.Multicast.{MulticastAdvertisement, marshal_binary, unmarshal_binary}

-- What the types of the fields guarantee, and a hash of less than 2 ^ 16 bytes.
pub record IsWellFormed (m : MulticastAdvertisement) : Type 0 where
  pub major_u16 : IsU16 m.major_version
  pub minor_u16 : IsU16 m.minor_version
  pub key_size : IsPublicKey m.public_key
  pub port_u16 : IsU16 m.port
  pub hash_size : length m.hash < 2 ^ 16

drop_past : (xs rest : Bytes) (k j : ℕ) → j ≡ length xs + k → drop j (xs ++ rest) ≡ drop k rest
drop_past [] rest k j h = let same : j ≡ k = omega arith in ap (λ i. drop i rest) same
drop_past (x ∷ xs) rest k zero h = absurd (omega arith)
drop_past (x ∷ xs) rest k (suc j) h = drop_past xs rest k j (omega arith)

take_front : (n : ℕ) (xs rest : Bytes) → length xs ≡ n → take n (xs ++ rest) ≡ xs
take_front n xs rest h = ap (λ i. take i (xs ++ rest)) (sym h) ∙ take-length_append xs rest

unmarshal_parts :
    (b key hash : Bytes) (major minor port : ℕ)
    → get_be16 (take 2 b) ≡ major
    → get_be16 (take 2 (drop 2 b)) ≡ minor
    → take 32 (drop 4 b) ≡ key
    → get_be16 (take 2 (drop 36 b)) ≡ port
    → get_be16 (take 2 (drop 38 b)) ≡ length hash
    → take (length hash) (drop 40 b) ≡ hash
    → 40 + length hash ≤ length b
    → unmarshal_binary b
      ≡ some (record {
        major_version = major;
        minor_version = minor;
        public_key = key;
        port = port;
        hash = hash;
      })
unfolding unmarshal_binary
unmarshal_parts b key hash major minor port e1 e2 e3 e4 e5 e6 l =
    let long : ltb (length b) 40 ≡ false = not_lt→ltb (length b) 40 (omega (arith, l)) in
    let whole : ltb (length b) (40 + length hash) ≡ false = not_lt→ltb _ _ l in
    rw (e5, e1, e2, e3, e4, e6) (rw (long, whole) refl)

-- What is behind the key.
tail_of : MulticastAdvertisement → Bytes
tail_of m = be16 m.port ++ (be16 (length m.hash % 2 ^ 16) ++ m.hash)

port_read :
    (m : MulticastAdvertisement) (rest : Bytes)
    → IsWellFormed m
    → get_be16 (take 2 (tail_of m ++ rest)) ≡ m.port
unfolding tail_of be16 get_be16
port_read m rest w = omega (arith, w.port_u16)

size_read :
    (m : MulticastAdvertisement) (rest : Bytes)
    → IsWellFormed m
    → get_be16 (take 2 (drop 2 (tail_of m ++ rest))) ≡ length m.hash
unfolding tail_of be16 get_be16
size_read m rest w = omega (arith, w.hash_size)

abbrev flat : MulticastAdvertisement → Bytes → Bytes
flat m rest =
    be16 m.major_version ++ (be16 m.minor_version ++ (m.public_key ++ (tail_of m ++ rest)))

marshal_flat : (m : MulticastAdvertisement) (rest : Bytes) → marshal_binary m ++ rest ≡ flat m rest
unfolding marshal_binary be16 tail_of
marshal_flat m rest =
    ap (λ x. be16 m.major_version ++ (be16 m.minor_version ++ x))
      (append_assoc m.public_key (tail_of m) rest)

major_read :
    (m : MulticastAdvertisement) (rest : Bytes)
    → IsWellFormed m
    → get_be16 (take 2 (flat m rest)) ≡ m.major_version
unfolding be16 get_be16
major_read m rest w = omega (arith, w.major_u16)

minor_read :
    (m : MulticastAdvertisement) (rest : Bytes)
    → IsWellFormed m
    → get_be16 (take 2 (drop 2 (flat m rest))) ≡ m.minor_version
unfolding be16 get_be16
minor_read m rest w = omega (arith, w.minor_u16)

hash_read :
    (m : MulticastAdvertisement) (rest : Bytes)
    → take (length m.hash) (drop 4 (tail_of m ++ rest)) ≡ m.hash
unfolding tail_of be16
hash_read m rest = take-length_append m.hash rest

long :
    (m : MulticastAdvertisement) (rest : Bytes)
    → IsWellFormed m
    → 40 + length m.hash ≤ length (flat m rest)
unfolding tail_of be16
long m rest w = omega (
  arith,
  w.key_size,
  length-append m.public_key (tail_of m ++ rest),
  length-append (tail_of m) rest,
)

-- A well-formed advertisement is read back from its bytes, whatever follows them.
pub advertisement_round_trip :
    (m : MulticastAdvertisement) (rest : Bytes)
    → IsWellFormed m
    → unmarshal_binary (marshal_binary m ++ rest) ≡ some m
unfolding be16
advertisement_round_trip m rest w =
    let past : (k j : ℕ)
        → j ≡ 32 + k
        → drop j (m.public_key ++ (tail_of m ++ rest)) ≡ drop k (tail_of m ++ rest) =
      λ k j h. drop_past m.public_key (tail_of m ++ rest) k j (omega (arith, h, w.key_size)) in
    ap unmarshal_binary (marshal_flat m rest)
    ∙ unmarshal_parts (flat m rest) m.public_key m.hash m.major_version m.minor_version m.port
        (major_read m rest w) (minor_read m rest w)
        (take_front 32 m.public_key (tail_of m ++ rest) w.key_size)
        (ap (λ x. get_be16 (take 2 x)) (past 0 32 (omega arith)) ∙ port_read m rest w)
        (ap (λ x. get_be16 (take 2 x)) (past 2 34 (omega arith)) ∙ size_read m rest w)
        (ap (take (length m.hash)) (past 4 36 (omega arith)) ∙ hash_read m rest) (long m rest w)

-- ===== src/Multicast.antt =====
-- src/multicast/advertisement.go: the beacon by which nodes on one link find each other. `none` is
-- the error of an invalid beacon.
pub mod Laws
use yggdrasil_go.Base.{
  ℕ, ◌+◌, ◌%◌, ◌^◌, ◌++◌, Option, none, some, ltb, if◌then◌else◌, length, take, drop,
}
use yggdrasil_go.Binary.{Bytes, be16, get_be16}
use yggdrasil_go.Crypto.{public_key_size}

pub record MulticastAdvertisement : Type 0 where
  pub major_version : ℕ
  pub minor_version : ℕ
  pub public_key : Bytes
  pub port : ℕ
  pub hash : Bytes

unfoldable pub marshal_binary : MulticastAdvertisement → Bytes
marshal_binary m =
    be16 m.major_version
    ++ (be16 m.minor_version
        ++ (m.public_key ++ (be16 m.port ++ (be16 (length m.hash % 2 ^ 16) ++ m.hash))))

abbrev pub header_len : ℕ
header_len = public_key_size + 8

unfoldable pub unmarshal_binary : Bytes → Option MulticastAdvertisement
unmarshal_binary b =
    let dl = get_be16 (take 2 (drop (6 + public_key_size) b)) in
    if ltb (length b) header_len
    then none
    else if ltb (length b) (header_len + dl)
    then none
    else some (record {
      major_version = get_be16 (take 2 b);
      minor_version = get_be16 (take 2 (drop 2 b));
      public_key = take public_key_size (drop 4 b);
      port = get_be16 (take 2 (drop (4 + public_key_size) b));
      hash = take dl (drop header_len b);
    })

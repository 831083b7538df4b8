-- ===== src/Tests/Handshake.antt =====
-- A handshake between two nodes with the same password.
use yggdrasil_go.Base.{◌≡◌, refl, [], ◌∷◌, ◌++◌, Option, some, Bool, if◌then◌else◌, arith}
use yggdrasil_go.Binary.{Bytes}
use yggdrasil_go.Crypto.{equal}
use yggdrasil_go.Handshake.{VersionMetadata, HandshakeError, failed, done, encode, decode}
use yggdrasil_go.Handshake.Laws.{IsWellFormed, empty_metadata}
use yggdrasil_go.Handshake.Agreement.{handshake_round_trip}
use yggdrasil_go.Tests.Data.{key_of, sig_of}

abbrev metadata : VersionMetadata
metadata = record {
  major_ver = 0;
  minor_ver = 5;
  public_key = key_of 4;
  priority = 2;
  features = 1;
  community_proof = sig_of 8;
  node_info = [];
}

metadata-IsWellFormed : IsWellFormed metadata
metadata-IsWellFormed = record {
  major_u16 = omega arith;
  minor_u16 = omega arith;
  key_size = refl;
  features_u64 = omega arith;
  proof_size = omega arith;
  info_size = omega arith;
}

-- Stands for a keyed hash, and for a signature of it.
abbrev keyed : Bytes → Bytes → Option Bytes
keyed password message = some (password ++ message)

abbrev signature_of : Bytes → Bytes
signature_of [] = sig_of 0
signature_of (b ∷ bs) = sig_of b

abbrev signed_by : Bytes → Bytes → Bytes → Bool
signed_by key hash sig = equal (signature_of hash) sig

handshake_round_trip_example :
    (bs : Bytes) × (encode keyed signature_of (7 ∷ []) metadata ≡ done bs)
    × (decode keyed signed_by (bs ++ (1 ∷ [])) (8 ∷ []) empty_metadata ≡ (
        if signed_by (key_of 4) (8 ∷ key_of 4) (sig_of 7)
        then done metadata
        else failed HandshakeError.incorrect_password))
handshake_round_trip_example =
    handshake_round_trip keyed signature_of signed_by (7 ∷ []) (8 ∷ []) (1 ∷ []) (7 ∷ key_of 4)
      (8 ∷ key_of 4) metadata metadata-IsWellFormed refl refl refl

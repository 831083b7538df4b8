-- ===== src/Tests/Multicast.antt =====
-- A beacon with a hash of three bytes.
use yggdrasil_go.Base.{◌≡◌, refl, [], ◌∷◌, ◌++◌, some, arith}
use yggdrasil_go.Multicast.{MulticastAdvertisement, marshal_binary, unmarshal_binary}
use yggdrasil_go.Multicast.Laws.{IsWellFormed, advertisement_round_trip}
use yggdrasil_go.Tests.Data.{key_of}

abbrev beacon : MulticastAdvertisement
beacon = record {
  major_version = 0;
  minor_version = 5;
  public_key = key_of 2;
  port = 9001;
  hash = 1 ∷ 2 ∷ 3 ∷ [];
}

beacon-IsWellFormed : IsWellFormed beacon
beacon-IsWellFormed = record {
  major_u16 = omega arith;
  minor_u16 = omega arith;
  key_size = refl;
  port_u16 = omega arith;
  hash_size = omega arith;
}

advertisement_round_trip_example :
    unmarshal_binary (marshal_binary beacon ++ (9 ∷ [])) ≡ some beacon
advertisement_round_trip_example = advertisement_round_trip beacon (9 ∷ []) beacon-IsWellFormed

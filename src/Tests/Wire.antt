-- ===== src/Tests/Wire.antt =====
-- The wire format and the order of keys at concrete inputs.
use yggdrasil_go.Base.{ℕ, List, ◌<◌, ◌≡◌, refl, [], ◌∷◌, ◌++◌, some, length, All, arith}
use yggdrasil_go.Binary.{Bytes, put_uvarint, uvarint_groups, uvarint, uvarint_from}
use yggdrasil_go.Wire.{chop_uint, append_path, size_path, chop_path, decode_path}
use yggdrasil_go.Wire.Paths.{IsPort, path_round_trip}
use yggdrasil_go.Wire.Decoding.{chop_path_accepts}

put_300 : put_uvarint 300 ≡ 172 ∷ 2 ∷ []
unfolding put_uvarint uvarint_groups
put_300 = refl

path_round_trip_example :
    (bs : Bytes) × (append_path [] (3 ∷ 300 ∷ []) ≡ [] ++ bs)
    × (length bs ≡ size_path (3 ∷ 300 ∷ []))
    × (chop_path (9 ∷ []) (bs ++ (7 ∷ [])) ≡ some (9 ∷ 3 ∷ 300 ∷ [], 7 ∷ []))
path_round_trip_example = path_round_trip [] (9 ∷ []) (3 ∷ 300 ∷ []) (7 ∷ []) (omega arith)

two_ports : chop_path (9 ∷ []) (3 ∷ 172 ∷ 2 ∷ 0 ∷ 8 ∷ []) ≡ some (9 ∷ 3 ∷ 300 ∷ [], 8 ∷ [])
unfolding chop_path decode_path chop_uint uvarint uvarint_from
two_ports = refl

chop_path_accepts_example :
    (ports : List ℕ) × (9 ∷ 3 ∷ 300 ∷ [] ≡ (9 ∷ []) ++ ports) × All IsPort ports × (1 < 5)
chop_path_accepts_example =
    chop_path_accepts (9 ∷ []) (3 ∷ 172 ∷ 2 ∷ 0 ∷ 8 ∷ []) (9 ∷ 3 ∷ 300 ∷ []) (8 ∷ []) two_ports

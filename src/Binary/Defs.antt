-- ===== src/Binary/Defs.antt =====
-- Uvarint, PutUvarint, AppendUvarint and the big-endian words of encoding/binary.
use yggdrasil_go.Base.{
  ℕ, zero, suc, ◌+◌, ◌*◌, ◌/◌, ◌%◌, ◌^◌, ◌<◌, List, [], ◌∷◌, ◌++◌, Option, none, some, ltb,
  if◌then◌else◌, ◌>>=◌,
}

abbrev pub Bytes : Type 0
Bytes = List ℕ

abbrev pub IsByte : ℕ → Type 0
IsByte b = b < 256

abbrev pub IsU16 : ℕ → Type 0
IsU16 v = v < 2 ^ 16

abbrev pub IsU64 : ℕ → Type 0
IsU64 v = v < 2 ^ 64

-- At most `k` bytes that carry seven bits with the top bit set, then the last byte.
unfoldable pub uvarint_groups : ℕ → ℕ → Bytes
uvarint_groups zero v = v ∷ []
uvarint_groups (suc k) v =
    let high = uvarint_groups k (v / 128) in if ltb v 128 then v ∷ [] else (v % 128 + 128) ∷ high

-- A uint64 takes ten bytes at most, nine of them with the top bit set.
unfoldable pub put_uvarint : ℕ → Bytes
put_uvarint v = uvarint_groups 9 v

unfoldable pub append_uvarint : Bytes → ℕ → Bytes
append_uvarint out v = out ++ put_uvarint v

-- The value and the bytes behind it. `none` is a count of bytes that is not positive: the input
-- ends inside the number, or the number needs more than 64 bits. The number is at the byte with
-- index 9 - k. Go's loop adds up `x |= uint64(b & 0x7f) << s`, here the value of the later bytes
-- is multiplied by 128, and the tenth byte may be 0 or 1.
unfoldable pub uvarint_from : ℕ → Bytes → Option (ℕ × Bytes)
uvarint_from k [] = none
uvarint_from zero (b ∷ bs) = if ltb b 2 then some (b, bs) else none
uvarint_from (suc k) (b ∷ bs) =
    let more : Option (ℕ × Bytes) =
      uvarint_from k bs >>= λ (high, rest). some (b % 128 + 128 * high, rest) in
    if ltb b 128 then some (b, bs) else more

unfoldable pub uvarint : Bytes → Option (ℕ × Bytes)
uvarint bs = uvarint_from 9 bs

-- PutUint16 and AppendUint16; Uint16 of a slice with two bytes at least.
unfoldable pub be16 : ℕ → Bytes
be16 v = (v / 256 % 256) ∷ (v % 256) ∷ []

unfoldable pub get_be16 : Bytes → ℕ
get_be16 (a ∷ b ∷ bs) = a * 256 + b
get_be16 _ = 0

be_bytes : ℕ → ℕ → Bytes
be_bytes zero v = []
be_bytes (suc k) v = (v / 256 ^ k % 256) ∷ be_bytes k v

get_be_bytes : ℕ → ℕ → Bytes → ℕ
get_be_bytes zero acc bs = acc
get_be_bytes (suc k) acc [] = acc
get_be_bytes (suc k) acc (b ∷ bs) = get_be_bytes k (acc * 256 + b) bs

-- PutUint64 and AppendUint64; Uint64 of a slice with eight bytes at least.
unfoldable pub be64 : ℕ → Bytes
unfolding be_bytes
be64 v = be_bytes 8 v

unfoldable pub get_be64 : Bytes → ℕ
unfolding get_be_bytes
get_be64 bs = get_be_bytes 8 0 bs

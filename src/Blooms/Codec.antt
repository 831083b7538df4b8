-- ===== src/Blooms/Codec.antt =====
-- ironwood/network/bloomfilter.go: the methods size, encode and decode of bloom. A filter is written
-- as two flags for each word, which say that all its bits are 0 or that all are 1, and the other
-- words.
pub mod Flags
pub mod Laws
use yggdrasil_go.Base.{
  ℕ, ◌+◌, ◌-◌, ◌*◌, ◌/◌, ◌%◌, ◌^◌, List, [], ◌∷◌, ◌++◌, map, Option, none, some, Bool, true, false,
  ◌==◌, ltb, leb, ◌&&◌, ◌||◌, not, if◌then◌else◌, length, take, drop, ◌>>=◌, ◌>>◌, require,
}
use yggdrasil_go.Binary.{Bytes, be64, get_be64}
use yggdrasil_go.Wire.{chop_slice}
use yggdrasil_go.Blooms.Filters.{Filters}

abbrev pub bloom_filter_f : ℕ
bloom_filter_f = 16

abbrev pub bloom_filter_u : ℕ
bloom_filter_u = bloom_filter_f * 8

-- `^uint64(0)`
abbrev pub all_ones : ℕ
all_ones = 2 ^ 64 - 1

-- The value of a bit of the flags: bit 7 - idx % 8 of byte idx / 8 is the flag of the word idx.
unfoldable pub bit_value : Bool → ℕ → ℕ
bit_value set value = if set then value else 0

-- The array of flags, eight to a byte, the first in the top bit.
unfoldable pub pack_flags : List Bool → Bytes
unfolding bit_value
pack_flags (a ∷ b ∷ c ∷ d ∷ e ∷ f ∷ g ∷ h ∷ rest) =
    (bit_value a 128
      + (bit_value b 64
          + (bit_value c 32
              + (bit_value d 16
                  + (bit_value e 8 + (bit_value f 4 + (bit_value g 2 + bit_value h 1)))))))
    ∷ pack_flags rest
pack_flags _ = []

-- `flags[idx/8] & (0x80 >> (uint64(idx) % 8)) != 0` for each word in turn.
unfoldable pub unpack_flags : Bytes → List Bool
unpack_flags [] = []
unpack_flags (v ∷ vs) =
    (v / 128 % 2 == 1)
    ∷ (v / 64 % 2 == 1)
    ∷ (v / 32 % 2 == 1)
    ∷ (v / 16 % 2 == 1)
    ∷ (v / 8 % 2 == 1)
    ∷ (v / 4 % 2 == 1)
    ∷ (v / 2 % 2 == 1)
    ∷ (v % 2 == 1)
    ∷ unpack_flags vs

-- The words that are written in full.
unfoldable pub kept_words : List ℕ → List ℕ
kept_words [] = []
kept_words (u ∷ us) =
    let rest = kept_words us in if (u == 0) || (u == all_ones) then rest else u ∷ rest

unfoldable pub write_words : List ℕ → Bytes
write_words [] = []
write_words (u ∷ us) = be64 u ++ write_words us

-- One round of the loop of `decode`: the word of a pair of flags, and what is left of the bytes.
unfoldable pub read_word : Bool → Bool → Bytes → Option (ℕ × Bytes)
read_word zeros ones bs =
    if zeros && ones
    then none
    else if zeros
    then some (0, bs)
    else if ones
    then some (all_ones, bs)
    else if leb 8 (length bs)
    then some (get_be64 (take 8 bs), drop 8 bs)
    else none

unfoldable pub read_words : List Bool → List Bool → Bytes → Option (List ℕ × Bytes)
read_words (zeros ∷ flags0) (ones ∷ flags1) bs = do
  (u, bs1) ← read_word zeros ones bs
  (us, rest) ← read_words flags0 flags1 bs1
  some (u ∷ us, rest)
read_words _ _ bs = some ([], bs)

module _ {F : Type 0} (fs : Filters F) where
  unfoldable pub size : F → ℕ
  unfolding kept_words
  size f = bloom_filter_f + bloom_filter_f + 8 * length (kept_words (fs.words f))

  -- What is appended to the bytes. `none` is the panic.
  unfoldable pub encode : F → Option Bytes
  unfolding size kept_words write_words pack_flags
  encode f =
      let us = fs.words f in
      let bs =
        pack_flags (map (λ u. u == 0) us)
        ++ (pack_flags (map (λ u. u == all_ones) us) ++ write_words (kept_words us)) in
      if length bs == size f then some bs else none

  unfoldable pub decode : Bytes → Option F
  unfolding read_words
  decode bs = do
    (flags0, bs0) ← chop_slice bloom_filter_f bs
    (flags1, bs1) ← chop_slice bloom_filter_f bs0
    (us, rest) ← read_words (unpack_flags flags0) (unpack_flags flags1) bs1
    require (length rest == 0)
    some (fs.from_words us)

-- ===== src/Blooms/Codec/Laws.antt =====
-- A Bloom filter of ironwood/network/bloomfilter.go, written and read back.
use yggdrasil_go.Base.{
  ℕ, suc, ◌*◌, ◌≡◌, refl, ap, ◌∙◌, arith, List, [], ◌∷◌, ◌++◌, map, some, true, length,
  length-append, take-append_at, drop-append_past, ◌==◌, ◌||◌, Bool-cases, inl, inr, All, ==_refl,
  ==_iff, append-nil, sym, leb, append_assoc, if◌then◌else◌, le→leb, take, drop,
}
use yggdrasil_go.Binary.{Bytes, IsU64, be64, get_be64, get_be64-be64, length-be64}
use yggdrasil_go.Wire.Paths.{chop_slice-append}
use yggdrasil_go.Blooms.Filters.{Filters, FiltersLaws}
use yggdrasil_go.Blooms.Codec.{
  pack_flags, kept_words, write_words, read_word, read_words, size, encode, decode, all_ones,
}
use yggdrasil_go.Blooms.Codec.Flags.{unpack_flags-pack_flags, pack_flags-length, Fills-length}

get_be64_lem : (u : ℕ) → IsU64 u → get_be64 (be64 u) ≡ u
get_be64_lem u h = ap get_be64 (sym (append-nil (be64 u))) ∙ get_be64-be64 u [] h

-- What is written of a word.
unfoldable word_bytes : ℕ → Bytes
word_bytes u = if (u == 0) || (u == all_ones) then [] else be64 u

write_words-kept_words :
    (u : ℕ) (us : List ℕ)
    → write_words (kept_words (u ∷ us)) ≡ word_bytes u ++ write_words (kept_words us)
unfolding write_words kept_words word_bytes
write_words-kept_words u us = elim (Bool-cases ((u == 0) || (u == all_ones))) [
  | inl blank ↦ rw blank refl
  | inr mixed ↦ rw mixed refl
]

-- A word is read from its flags and what is written of it.
read_word-word_bytes :
    (u : ℕ) (rest : Bytes)
    → IsU64 u
    → read_word (u == 0) (u == all_ones) (word_bytes u ++ rest) ≡ some (u, rest)
unfolding read_word word_bytes
read_word-word_bytes u rest h = elim (Bool-cases (u == 0)) [
  | inl zeros ↦ rw ((==_iff u 0).0 zeros) refl
  | inr some_set ↦ elim (Bool-cases (u == all_ones)) [
    | inl ones ↦ rw ((==_iff u all_ones).0 ones) refl
    | inr mixed ↦
        let e1 : take 8 (be64 u ++ rest) ≡ be64 u =
          take-append_at 8 (be64 u) rest (length-be64 u) in
        let e2 : drop 8 (be64 u ++ rest) ≡ rest =
          drop-append_past 8 0 (be64 u) rest (length-be64 u) in
        let e3 : leb 8 (length (be64 u ++ rest)) ≡ true =
          le→leb 8 (length (be64 u ++ rest))
            (omega (arith, length-append (be64 u) rest, length-be64 u)) in
        rw (some_set, mixed, e3, e1, e2, get_be64_lem u h) refl
  ]
]

read_words-write_words :
    (us : List ℕ) (rest : Bytes)
    → All IsU64 us
    → read_words
        (map (λ u. u == 0) us)
        (map (λ u. u == all_ones) us)
        (write_words (kept_words us) ++ rest)
      ≡ some (us, rest)
unfolding read_words write_words kept_words
read_words-write_words [] rest h = refl
read_words-write_words (u ∷ us) rest h =
    let word = read_word-word_bytes u (write_words (kept_words us) ++ rest) h.0 in
    let words = read_words-write_words us rest h.1 in
    rw (write_words-kept_words u us, append_assoc, word, words) refl

write_words-length : (us : List ℕ) → length (write_words us) ≡ 8 * length us
unfolding write_words
write_words-length [] = refl
write_words-length (u ∷ us) =
    omega (arith, length-append (be64 u) (write_words us), length-be64 u, write_words-length us)

length-map {ℓ κ} :
    {A : Type ℓ} {B : Type κ} (f : A → B) (xs : List A) → length (map f xs) ≡ length xs
length-map f [] = refl
length-map f (x ∷ xs) = ap suc (length-map f xs)

-- A filter is written in as many bytes as `size` says, without the panic, and read back as it was.
pub bloom_round_trip :
    {F : Type 0} (fs : Filters F) (laws : FiltersLaws fs) (f : F)
    → (bs : Bytes) × (encode fs f ≡ some bs) × (length bs ≡ size fs f) × (decode fs bs ≡ some f)
unfolding encode decode size
bloom_round_trip fs laws f =
    let us = fs.words f in
    let zeros = map (λ u. u == 0) us in
    let ones = map (λ u. u == all_ones) us in
    let kept = write_words (kept_words us) in
    let bs = pack_flags zeros ++ (pack_flags ones ++ kept) in
    let fill0 = Fills-length 16 zeros (length-map (λ u. u == 0) us ∙ laws.words_size f) in
    let fill1 = Fills-length 16 ones (length-map (λ u. u == all_ones) us ∙ laws.words_size f) in
    let len0 = pack_flags-length 16 zeros fill0 in
    let len1 = pack_flags-length 16 ones fill1 in
    let total : length bs ≡ size fs f = omega (
      arith,
      length-append (pack_flags zeros) (pack_flags ones ++ kept),
      length-append (pack_flags ones) kept,
      write_words-length (kept_words us),
    ) in
    let words : read_words zeros ones kept ≡ some (us, []) =
      ap (read_words zeros ones) (sym (append-nil kept))
      ∙ read_words-write_words us [] (laws.words_u64 f) in
    (
      bs,
      rw (total, ==_refl (size fs f)) refl,
      total,
      rw
          (
            chop_slice-append 16 (pack_flags zeros) (pack_flags ones ++ kept) len0,
            chop_slice-append 16 (pack_flags ones) kept len1,
            unpack_flags-pack_flags 16 zeros fill0,
            unpack_flags-pack_flags 16 ones fill1,
            words,
            laws.from_words-words f,
          )
          refl,
    )

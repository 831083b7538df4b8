-- ===== src/Blooms/Codec/Flags.antt =====
-- The flags of a Bloom filter of ironwood/network/bloomfilter.go, packed and unpacked.
use yggdrasil_go.Base.{
  ℕ, zero, suc, ◌+◌, ◌*◌, ◌/◌, ◌%◌, ◌≤◌, ◌≡◌, refl, ap, arith, List, [], ◌∷◌, Bool, true, false,
  length, ◌==◌,
}
use yggdrasil_go.Blooms.Codec.{bit_value, pack_flags, unpack_flags}

-- A list of flags that fills `n` bytes.
pub data Fills : ℕ → List Bool → Type 0 where
  nothing : Fills 0 []
  one_more :
      (n : ℕ) (a b c d e f g h : Bool) (rest : List Bool)
      → Fills n rest
      → Fills (suc n) (a ∷ b ∷ c ∷ d ∷ e ∷ f ∷ g ∷ h ∷ rest)

-- A flag as a number.
digit : Bool → ℕ
digit true = 1
digit false = 0

digit_le : (a : Bool) → digit a ≤ 1
unfolding digit
digit_le true = omega arith
digit_le false = omega arith

digit-== : (a : Bool) → (digit a == 1) ≡ a
unfolding digit
digit-== true = refl
digit-== false = refl

bit_value-digit : (a : Bool) (value : ℕ) → bit_value a value ≡ value * digit a
unfolding bit_value digit
bit_value-digit true value = omega arith
bit_value-digit false value = omega arith

abbrev byte_of : (a b c d e f g h : ℕ) → ℕ
byte_of a b c d e f g h =
    128 * a + (64 * b + (32 * c + (16 * d + (8 * e + (4 * f + (2 * g + 1 * h))))))

-- Eight digits are those of the number that they make up.
bits_of_byte :
    (a b c d e f g h : ℕ)
    → (a ≤ 1) × (b ≤ 1) × (c ≤ 1) × (d ≤ 1) × (e ≤ 1) × (f ≤ 1) × (g ≤ 1) × (h ≤ 1)
    → let v = byte_of a b c d e f g h in
      (v / 128 % 2 ≡ a)
      × (v / 64 % 2 ≡ b)
      × (v / 32 % 2 ≡ c)
      × (v / 16 % 2 ≡ d)
      × (v / 8 % 2 ≡ e)
      × (v / 4 % 2 ≡ f)
      × (v / 2 % 2 ≡ g)
      × (v % 2 ≡ h)
bits_of_byte a b c d e f g h bounds = omega arith

pub unpack_flags-pack_flags :
    (n : ℕ) (flags : List Bool) → Fills n flags → unpack_flags (pack_flags flags) ≡ flags
unfolding unpack_flags pack_flags
unpack_flags-pack_flags n flags nothing = refl
unpack_flags-pack_flags n flags (one_more k a b c d e f g h rest more) =
    let (ea, eb, ec, ed, ee, ef, eg, eh) =
      bits_of_byte (digit a) (digit b) (digit c) (digit d) (digit e) (digit f) (digit g) (digit h) (
        digit_le a,
        digit_le b,
        digit_le c,
        digit_le d,
        digit_le e,
        digit_le f,
        digit_le g,
        digit_le h,
      ) in
    rw
      (
        bit_value-digit a 128,
        bit_value-digit b 64,
        bit_value-digit c 32,
        bit_value-digit d 16,
        bit_value-digit e 8,
        bit_value-digit f 4,
        bit_value-digit g 2,
        bit_value-digit h 1,
        ea,
        eb,
        ec,
        ed,
        ee,
        ef,
        eg,
        eh,
        digit-== a,
        digit-== b,
        digit-== c,
        digit-== d,
        digit-== e,
        digit-== f,
        digit-== g,
        digit-== h,
        unpack_flags-pack_flags k rest more,
      )
      refl

pub pack_flags-length : (n : ℕ) (flags : List Bool) → Fills n flags → length (pack_flags flags) ≡ n
unfolding pack_flags
pack_flags-length n flags nothing = refl
pack_flags-length n flags (one_more k a b c d e f g h rest more) =
    ap suc (pack_flags-length k rest more)

pub Fills-length : (n : ℕ) (flags : List Bool) → length flags ≡ 8 * n → Fills n flags
Fills-length zero [] e = nothing
Fills-length zero (a ∷ flags) len = absurd (omega arith)
Fills-length (suc n) [] len = absurd (omega arith)
Fills-length (suc n) (a ∷ []) len = absurd (omega arith)
Fills-length (suc n) (a ∷ b ∷ []) len = absurd (omega arith)
Fills-length (suc n) (a ∷ b ∷ c ∷ []) len = absurd (omega arith)
Fills-length (suc n) (a ∷ b ∷ c ∷ d ∷ []) len = absurd (omega arith)
Fills-length (suc n) (a ∷ b ∷ c ∷ d ∷ e ∷ []) len = absurd (omega arith)
Fills-length (suc n) (a ∷ b ∷ c ∷ d ∷ e ∷ f ∷ []) len = absurd (omega arith)
Fills-length (suc n) (a ∷ b ∷ c ∷ d ∷ e ∷ f ∷ g ∷ []) len = absurd (omega arith)
Fills-length (suc n) (a ∷ b ∷ c ∷ d ∷ e ∷ f ∷ g ∷ h ∷ rest) len =
    one_more n a b c d e f g h rest (Fills-length n rest (omega arith))

-- ===== src/Wire/Decoding.antt =====
-- `wireDecodePath` and `wireChopPath` on any input: the loop ends, and what it accepts.
use yggdrasil_go.Base.{
  ℕ, zero, suc, ◌+◌, ◌-◌, ◌≤◌, ◌<◌, ◌≡◌, refl, sym, ◌∙◌, List, [], ◌∷◌, ◌++◌, Option, none, some,
  length, drop, All, arith, ◌==◌, if◌then◌else◌, ==_ne, ◌>>=◌, Option-cases, inl, inr, All-append,
  length-drop, some_pair,
}
use yggdrasil_go.Binary.{Bytes, IsU64, uvarint, uvarint_from, uvarint_bounds}
use yggdrasil_go.Wire.{chop_uint, decode_path_loop, decode_path, chop_path}
use yggdrasil_go.Wire.Paths.{
  IsPort, decode_path_loop_end, decode_path_loop_port, decode_path_loop_cut,
}

pub chop_uint_bounds :
    (bs : Bytes) (u : ℕ) (rest : Bytes)
    → chop_uint bs ≡ some (u, rest)
    → IsU64 u × (length rest < length bs) × (length bs ≤ length rest + 10)
unfolding chop_uint
chop_uint_bounds = uvarint_bounds

chop_uint-nil : chop_uint [] ≡ none
unfolding chop_uint uvarint uvarint_from
chop_uint-nil = refl

-- The number of rounds allowed does not matter, from one for each byte on.
decode_path_loop_fuel :
    (n m : ℕ) (acc : List ℕ) (bs : Bytes)
    → length bs ≤ n
    → length bs ≤ m
    → decode_path_loop n acc bs ≡ decode_path_loop m acc bs
decode_path_loop_fuel zero zero acc bs h k = refl
decode_path_loop_fuel zero (suc m) acc [] h k = unfold decode_path_loop in rw chop_uint-nil
decode_path_loop_fuel zero (suc m) acc (b ∷ bs) h k = absurd (omega arith)
decode_path_loop_fuel (suc n) zero acc [] h k = unfold decode_path_loop in rw chop_uint-nil
decode_path_loop_fuel (suc n) zero acc (b ∷ bs) h k = absurd (omega arith)
decode_path_loop_fuel (suc n) (suc m) acc bs h k = elim (Option-cases (chop_uint bs)) [
  | inl e ↦ decode_path_loop_cut n acc bs e ∙ sym (decode_path_loop_cut m acc bs e)
  | inr ((zero, rest), e) ↦ decode_path_loop_end n acc bs e ∙ sym (decode_path_loop_end m acc bs e)
  | inr ((suc u, rest), e) ↦
      let b = chop_uint_bounds bs (suc u) rest e in
      decode_path_loop_port n acc bs e (omega arith)
      ∙ decode_path_loop_fuel n m (acc ++ (suc u ∷ [])) rest (omega arith) (omega arith)
      ∙ sym (decode_path_loop_port m acc bs e (omega arith))
]

-- The `for` loop of `wireDecodePath` with no bound on its rounds.
pub decode_path_loop_lem :
    (acc : List ℕ) (bs : Bytes)
    → decode_path_loop (length bs) acc bs ≡ (
        chop_uint bs >>= λ (u, rest).
        if u == 0 then some (acc, rest) else decode_path_loop (length rest) (acc ++ (u ∷ [])) rest)
decode_path_loop_lem acc bs = elim (Option-cases (chop_uint bs)) [
  | inl e ↦ rw e (stop (length bs) e)
  | inr ((zero, rest), e) ↦
      rw e (first_round (suc (length bs)) (omega arith) ∙ decode_path_loop_end (length bs) acc bs e)
  | inr ((suc u, rest), e) ↦ rw e (
      first_round (suc (length bs)) (omega arith)
      ∙ decode_path_loop_port (length bs) acc bs e (omega arith)
      ∙ decode_path_loop_fuel (length bs) (length rest) (acc ++ (suc u ∷ [])) rest
          (omega (arith, chop_uint_bounds bs (suc u) rest e)) (omega arith)
      ∙ sym (next u rest))
]
  where
    first_round :
        (n : ℕ) → length bs ≤ n → decode_path_loop (length bs) acc bs ≡ decode_path_loop n acc bs
    first_round n h = decode_path_loop_fuel (length bs) n acc bs (omega arith) h

    stop : (n : ℕ) → chop_uint bs ≡ none → decode_path_loop (length bs) acc bs ≡ none
    stop n e =
        first_round (suc (length bs)) (omega arith) ∙ decode_path_loop_cut (length bs) acc bs e

    next :
        (u : ℕ) (rest : Bytes)
        → (if suc u == 0
            then some (acc, rest)
            else decode_path_loop (length rest) (acc ++ (suc u ∷ [])) rest)
          ≡ decode_path_loop (length rest) (acc ++ (suc u ∷ [])) rest
    next u rest = rw (==_ne (suc u) 0 (omega arith))

-- Whatever bytes arrive, an accepted path is made of ports, none of them 0, and its bytes, one at
-- least, are gone.
decode_path_loop_accepts :
    (fuel : ℕ) (acc : List ℕ) (bs : Bytes) (path : List ℕ) (rest : Bytes)
    → decode_path_loop fuel acc bs ≡ some (path, rest)
    → All IsPort acc
    → All IsPort path × (length rest < length bs)
decode_path_loop_accepts zero acc bs path rest e h = unfold decode_path_loop in cc
decode_path_loop_accepts (suc fuel) acc bs path rest e h = elim (Option-cases (chop_uint bs)) [
  | inl p ↦ cc (decode_path_loop_cut fuel acc bs p)
  | inr ((zero, r), p) ↦
      ground (arith, decode_path_loop_end fuel acc bs p, chop_uint_bounds bs 0 r p)
  | inr ((suc u, r), p) ↦
      let b = chop_uint_bounds bs (suc u) r p in
      let ih =
        decode_path_loop_accepts fuel (acc ++ (suc u ∷ [])) r path rest
          (sym (decode_path_loop_port fuel acc bs p (omega arith)) ∙ e)
          (All-append IsPort acc (suc u ∷ []) h (omega arith)) in
      (ih.0, omega arith)
]

-- A path that `wireChopPath` accepts, from whatever bytes, is the old `*out` and then ports: uint64s,
-- none of them 0. It takes one byte at least off `*data`.
pub chop_path_accepts :
    (out : List ℕ) (bs : Bytes) (path : List ℕ) (rest : Bytes)
    → chop_path out bs ≡ some (path, rest)
    → (ports : List ℕ) × (path ≡ out ++ ports) × All IsPort ports × (length rest < length bs)
unfolding chop_path decode_path
chop_path_accepts out bs path rest e = elim (Option-cases (decode_path_loop (length bs) [] bs)) [
  | inl p ↦ cc
  | inr ((ports, r), p) ↦
      let b = decode_path_loop_accepts (length bs) [] bs ports r p tt in
      let (same, left) = some_pair (taken ports r p) in
      (ports, sym same, b.0, rw (← left) (omega (arith, length-drop (length bs - length r) bs)))
]
  where
    taken :
        (ports : List ℕ) (r : Bytes)
        → decode_path_loop (length bs) [] bs ≡ some (ports, r)
        → ◌≡◌ {A = Option (List ℕ × Bytes)}
            (some (out ++ ports, drop (length bs - length r) bs))
            (some (path, rest))
    taken ports r p = rw p at e

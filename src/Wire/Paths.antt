-- ===== src/Wire/Paths.antt =====
-- What the pieces of the wire format promise: reading undoes writing, the sizes are exact, and a
-- path that was read holds no zero.
use yggdrasil_go.Base.{
  ℕ, zero, suc, ◌+◌, ◌-◌, ◌≤◌, ◌<◌, ◌≡◌, refl, sym, ap, ◌∙◌, List, [], ◌∷◌, ◌++◌, append-nil,
  append_assoc, none, some, length, length-append, drop-length_append, take-length_append, All,
  arith, ◌≢◌, ==_ne, not_lt→ltb,
}
use yggdrasil_go.Binary.{Bytes, IsU64, put_uvarint, append_uvarint}
use yggdrasil_go.Binary.{uvarint-put_uvarint, put_uvarint-length}
use yggdrasil_go.Wire.{
  chop_slice, chop_uint, size_uint, append_uint, size_path_loop, size_path, append_path_loop,
  append_path, decode_path_loop, decode_path, chop_path,
}

-- A port of a path: a uint64 other than 0, which ends a path on the wire.
abbrev pub IsPort : ℕ → Type 0
IsPort p = (0 < p) × IsU64 p

-- A path as it stands on the wire.
pub path_bytes : List ℕ → Bytes
path_bytes [] = put_uvarint 0
path_bytes (p ∷ ps) = put_uvarint p ++ path_bytes ps

pub append_uint_lem : (out : Bytes) (u : ℕ) → append_uint out u ≡ out ++ put_uvarint u
unfolding append_uint append_uvarint
append_uint_lem out u = refl

append_path_loop_lem :
    (path : List ℕ) (dest : Bytes)
    → append_path_loop dest path ++ put_uvarint 0 ≡ dest ++ path_bytes path
unfolding append_path_loop path_bytes
append_path_loop_lem [] dest = refl
append_path_loop_lem (p ∷ ps) dest =
    append_path_loop_lem ps (append_uint dest p)
    ∙ rw append_uint_lem (append_assoc dest (put_uvarint p) (path_bytes ps))

pub append_path_lem :
    (dest : Bytes) (path : List ℕ) → append_path dest path ≡ dest ++ path_bytes path
unfolding append_path
append_path_lem dest path = append_uint_lem _ 0 ∙ append_path_loop_lem path dest

size_path_loop_lem :
    (path : List ℕ) (n : ℕ) → size_path_loop n path + size_uint 0 ≡ n + length (path_bytes path)
unfolding size_path_loop size_uint path_bytes
size_path_loop_lem [] n = omega arith
size_path_loop_lem (p ∷ ps) n =
    omega (
      arith,
      size_path_loop_lem ps (n + size_uint p),
      length-append (put_uvarint p) (path_bytes ps),
    )

pub size_path_lem : (path : List ℕ) → size_path path ≡ length (path_bytes path)
unfolding size_path
size_path_lem path = omega (arith, size_path_loop_lem path 0)

pub size_uint_lem : (u : ℕ) → size_uint u ≡ length (put_uvarint u)
unfolding size_uint
size_uint_lem u = refl

pub chop_slice-append :
    (n : ℕ) (xs rest : Bytes) → length xs ≡ n → chop_slice n (xs ++ rest) ≡ some (xs, rest)
unfolding chop_slice
chop_slice-append n xs rest h = rw (
  ← h,
  not_lt→ltb (length (xs ++ rest)) (length xs) (omega (arith, length-append xs rest)),
  take-length_append xs rest,
  drop-length_append xs rest,
)

pub chop_slice_all : (n : ℕ) (xs : Bytes) → length xs ≡ n → chop_slice n xs ≡ some (xs, [])
chop_slice_all n xs h = rw (append-nil xs) at (chop_slice-append n xs [] h)

pub chop_uint-put_uvarint :
    (u : ℕ) (rest : Bytes) → IsU64 u → chop_uint (put_uvarint u ++ rest) ≡ some (u, rest)
unfolding chop_uint
chop_uint-put_uvarint = uvarint-put_uvarint

path_bytes_nonempty : (path : List ℕ) → 0 < length (path_bytes path)
unfolding path_bytes
path_bytes_nonempty [] = omega (arith, put_uvarint-length 0)
path_bytes_nonempty (p ∷ ps) =
    omega (arith, path_bytes_nonempty ps, length-append (put_uvarint p) (path_bytes ps))

-- One round of the loop, for each result of `chop_uint`.
module _ (fuel : ℕ) (acc : List ℕ) (bs : Bytes) where
  pub decode_path_loop_end :
      {rest : Bytes}
      → chop_uint bs ≡ some (0, rest)
      → decode_path_loop (suc fuel) acc bs ≡ some (acc, rest)
  unfolding decode_path_loop
  decode_path_loop_end e = rw e

  pub decode_path_loop_port :
      {u : ℕ} {rest : Bytes}
      → chop_uint bs ≡ some (u, rest)
      → u ≢ 0
      → decode_path_loop (suc fuel) acc bs ≡ decode_path_loop fuel (acc ++ (u ∷ [])) rest
  unfolding decode_path_loop
  decode_path_loop_port {u} e h = rw (e, ==_ne u 0 h)

  pub decode_path_loop_cut : chop_uint bs ≡ none → decode_path_loop (suc fuel) acc bs ≡ none
  unfolding decode_path_loop
  decode_path_loop_cut e = rw e

decode_path_loop-path_bytes :
    (fuel : ℕ) (path acc : List ℕ) (rest : Bytes)
    → All IsPort path
    → length (path_bytes path) ≤ fuel
    → decode_path_loop fuel acc (path_bytes path ++ rest) ≡ some (acc ++ path, rest)
decode_path_loop-path_bytes zero path acc rest h k =
    absurd (omega (arith, path_bytes_nonempty path))
decode_path_loop-path_bytes (suc fuel) [] acc rest h k = rw (append-nil acc) (
    decode_path_loop_end fuel acc _
      (unfold path_bytes in chop_uint-put_uvarint 0 rest (omega arith)))
decode_path_loop-path_bytes (suc fuel) (p ∷ ps) acc rest ((pos, small), h) k =
    decode_path_loop_port fuel acc _ {u = p} {rest = path_bytes ps ++ rest} first (omega arith)
    ∙ decode_path_loop-path_bytes fuel ps (acc ++ (p ∷ [])) rest h (omega (arith, shorter))
    ∙ ap (λ xs. some (xs, rest)) (append_assoc acc (p ∷ []) ps)
  where
    first : chop_uint (path_bytes (p ∷ ps) ++ rest) ≡ some (p, path_bytes ps ++ rest)
    first =
        unfold path_bytes in
        rw (append_assoc (put_uvarint p) (path_bytes ps) rest) (chop_uint-put_uvarint p _ small)

    shorter : length (path_bytes ps) < length (path_bytes (p ∷ ps))
    shorter =
        unfold path_bytes in
        omega (arith, put_uvarint-length p, length-append (put_uvarint p) (path_bytes ps))

-- A path is read back from the bytes that were written for it, whatever stands behind them.
pub chop_path-path_bytes :
    (out path : List ℕ) (rest : Bytes)
    → All IsPort path
    → chop_path out (path_bytes path ++ rest) ≡ some (out ++ path, rest)
unfolding chop_path decode_path
chop_path-path_bytes out path rest h =
    let bs = path_bytes path ++ rest in
    let sizes = length-append (path_bytes path) rest in
    rw (decode_path_loop-path_bytes (length bs) path [] rest h (omega (arith, sizes))) (
      rw (taken sizes)
        (ap (λ r. some (out ++ path, r)) (drop-length_append (path_bytes path) rest)))
  where
    taken :
        length (path_bytes path ++ rest) ≡ length (path_bytes path) + length rest
        → length (path_bytes path ++ rest) - length rest ≡ length (path_bytes path)
    taken e = omega arith

-- A uint64 is written in at most ten bytes, as many as `wireSizeUint` says, and `wireChopUint`
-- takes it back off the front.
pub uint_round_trip :
    (out : Bytes) (u : ℕ) (rest : Bytes)
    → IsU64 u
    → (bs : Bytes) × (append_uint out u ≡ out ++ bs)
      × (length bs ≡ size_uint u)
      × (length bs ≤ 10)
      × (chop_uint (bs ++ rest) ≡ some (u, rest))
uint_round_trip out u rest h = (
  put_uvarint u,
  append_uint_lem out u,
  sym (size_uint_lem u),
  (put_uvarint-length u).1,
  chop_uint-put_uvarint u rest h,
)

-- A path of ports, each a uint64 other than 0, is written in as many bytes as `wireSizePath` says,
-- and `wireChopPath` takes it back off the front and appends it to `*out`.
pub path_round_trip :
    (dest : Bytes) (out path : List ℕ) (rest : Bytes)
    → All IsPort path
    → (bs : Bytes) × (append_path dest path ≡ dest ++ bs)
      × (length bs ≡ size_path path)
      × (chop_path out (bs ++ rest) ≡ some (out ++ path, rest))
path_round_trip dest out path rest h = (
  path_bytes path,
  append_path_lem dest path,
  sym (size_path_lem path),
  chop_path-path_bytes out path rest h,
)

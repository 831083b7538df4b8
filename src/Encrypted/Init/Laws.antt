-- ===== src/Encrypted/Init/Laws.antt =====
-- The messages sessionInit and sessionAck of ironwood/encrypted/session.go, written and read back.
use yggdrasil_go.Base.{
  ℕ, ◌≡◌, refl, sym, ap, append-nil, ◌∙◌, arith, [], ◌∷◌, ◌++◌, some, true, length, take, drop,
  get_or, take-append_at, drop-append_past, length-append,
}
use yggdrasil_go.Binary.{Bytes, IsU64, be64, get_be64, get_be64-be64, length-be64}
use yggdrasil_go.Encrypted.Box.{Box, BoxLaws}
use yggdrasil_go.Encrypted.Init.{SessionInit, init_bytes, encrypt, decrypt, session_init_size}

-- The keys are arrays of 32 bytes, the numbers uint64s.
pub record IsInit (init : SessionInit) : Type 0 where
  pub current_size : length init.current ≡ 32
  pub next_size : length init.next ≡ 32
  pub key_seq_u64 : IsU64 init.key_seq
  pub seq_u64 : IsU64 init.seq

-- What a payload reads as behind its signature.
unfoldable read_init : Bytes → SessionInit
read_init tmp = record {
  current = take 32 tmp;
  next = take 32 (drop 32 tmp);
  key_seq = get_be64 (take 8 (drop 64 tmp));
  seq = get_be64 (drop 72 tmp);
}

be64_lem : (v : ℕ) → IsU64 v → get_be64 (be64 v) ≡ v
be64_lem v h = ap get_be64 (sym (append-nil (be64 v))) ∙ get_be64-be64 v [] h

init_bytes-length : (init : SessionInit) → IsInit init → length (init_bytes init) ≡ 80
unfolding init_bytes
init_bytes-length init h =
    let n = length-be64 init.key_seq in
    let m = length-be64 init.seq in
    omega (
      arith,
      length-append init.current (init.next ++ (be64 init.key_seq ++ be64 init.seq)),
      length-append init.next (be64 init.key_seq ++ be64 init.seq),
      length-append (be64 init.key_seq) (be64 init.seq),
      h.current_size,
      h.next_size,
    )

read_init-init_bytes : (init : SessionInit) → IsInit init → read_init (init_bytes init) ≡ init
unfolding read_init init_bytes
read_init-init_bytes init h =
    let numbers = be64 init.key_seq ++ be64 init.seq in
    let keys = init.current ++ (init.next ++ numbers) in
    let e1 : take 32 keys ≡ init.current = take-append_at 32 _ _ h.current_size in
    let e2 : drop 32 keys ≡ init.next ++ numbers = drop-append_past 32 0 _ _ h.current_size in
    let e3 : take 32 (init.next ++ numbers) ≡ init.next = take-append_at 32 _ _ h.next_size in
    let e4 : drop 64 keys ≡ numbers =
      drop-append_past 32 32 init.current _ h.current_size
      ∙ drop-append_past 32 0 init.next _ h.next_size in
    let e5 : drop 72 keys ≡ be64 init.seq =
      drop-append_past 32 40 init.current _ h.current_size
      ∙ drop-append_past 32 8 init.next _ h.next_size
      ∙ drop-append_past 8 0 (be64 init.key_seq) _ (length-be64 init.key_seq) in
    let e6 : take 8 numbers ≡ be64 init.key_seq =
      take-append_at 8 (be64 init.key_seq) (be64 init.seq) (length-be64 init.key_seq) in
    rw (e1, e2, e3, e4, e5, e6, be64_lem init.key_seq h.key_seq_u64, be64_lem init.seq h.seq_u64)
      refl

-- The message of the parts: the key that it was sealed with, the signature and what is signed.
decrypt_lem :
    (b : Box) (kind : ℕ) (private public key boxed sig tmp : Bytes)
    → length key ≡ 32
    → length boxed ≡ 160
    → length sig ≡ 64
    → b.open_sealed boxed 0 (b.shared key private) ≡ some (sig ++ tmp)
    → b.ed_check (key ++ tmp) sig public ≡ true
    → decrypt b private public (kind ∷ (key ++ boxed)) ≡ some (read_init tmp)
unfolding decrypt read_init
decrypt_lem b kind private public key boxed sig tmp kl bl sl opened signed =
    let e1 : take 32 (key ++ boxed) ≡ key = take-append_at 32 key boxed kl in
    let e2 : drop 32 (key ++ boxed) ≡ boxed = drop-append_past 32 0 key boxed kl in
    let e3 : take 64 (sig ++ tmp) ≡ sig = take-append_at 64 sig tmp sl in
    let e4 : drop 64 (sig ++ tmp) ≡ tmp = drop-append_past 64 0 sig tmp sl in
    let e5 : length (kind ∷ (key ++ boxed)) ≡ 193 = omega (arith, length-append key boxed) in
    rw (e5, e1, e2, opened, e3, e4, signed) refl

-- What a node encrypts for another as an init or an ack is a message that carries its kind in the
-- first byte, and the other node decrypts it to what was sent, for every key pair that it is sealed
-- with.
pub session_init_round_trip :
    (b : Box) (laws : BoxLaws b) (draw kind : ℕ) (from to : Bytes) (init : SessionInit)
    → IsInit init
    → (bs : Bytes) × (encrypt b draw kind from (b.ed_public to) init ≡ some bs)
      × (get_or bs 0 0 ≡ kind)
      × (length bs ≡ session_init_size)
      × (decrypt b (b.to_box_private to) (b.ed_public from) bs ≡ some init)
unfolding encrypt
session_init_round_trip b laws draw kind from to init h =
    let key = (b.new_keys draw).0 in
    let tmp = init_bytes init in
    let sig = b.ed_sign from (key ++ tmp) in
    let shared = b.shared (b.to_box (b.ed_public to)) (b.new_keys draw).1 in
    let boxed = b.seal (sig ++ tmp) 0 shared in
    let sl = laws.signature_size (key ++ tmp) from in
    let kl = laws.key_size draw in
    let bl : length boxed ≡ 160 = omega (
      arith,
      laws.seal_size (sig ++ tmp) shared 0,
      length-append sig tmp,
      init_bytes-length init h,
    ) in
    let size : length (kind ∷ (key ++ boxed)) ≡ 193 = omega (arith, length-append key boxed) in
    let opened : b.open_sealed boxed 0 (b.shared key (b.to_box_private to)) ≡ some (sig ++ tmp) =
      ap (b.open_sealed boxed 0) (sym (laws.agree_ed draw to))
      ∙ laws.open_seal (sig ++ tmp) shared 0 in
    let e1 : drop 32 (key ++ tmp) ≡ tmp = drop-append_past 32 0 key tmp kl in
    let written : encrypt b draw kind from (b.ed_public to) init ≡ some (kind ∷ (key ++ boxed)) =
      rw (e1, size) refl in
    (
      kind ∷ (key ++ boxed),
      written,
      refl,
      size,
      decrypt_lem b kind (b.to_box_private to) (b.ed_public from) key boxed sig tmp kl bl sl opened
            (laws.signature_valid (key ++ tmp) from)
          ∙ ap some (read_init-init_bytes init h),
    )

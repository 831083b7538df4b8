-- ===== src/Encrypted/Init.antt =====
-- ironwood/encrypted/session.go: sessionInit and sessionAck, the messages by which two ends tell
-- each other their keys.
pub mod Laws
use yggdrasil_go.Base.{
  ℕ, ◌+◌, ◌/◌, List, [], ◌∷◌, ◌++◌, Option, none, some, Bool, not, ◌==◌, if◌then◌else◌, length,
  take, drop, ◌>>=◌, ◌>>◌, require,
}
use yggdrasil_go.Binary.{Bytes, be64, get_be64}
use yggdrasil_go.Encrypted.Box.{Box}

abbrev pub box_pub_size : ℕ
box_pub_size = 32

abbrev pub box_overhead : ℕ
box_overhead = 16

abbrev pub ed_sig_size : ℕ
ed_sig_size = 64

abbrev pub session_type_init : ℕ
session_type_init = 1

abbrev pub session_type_ack : ℕ
session_type_ack = 2

abbrev pub session_type_traffic : ℕ
session_type_traffic = 3

abbrev pub session_init_size : ℕ
session_init_size =
    1 + box_pub_size + box_overhead + ed_sig_size + box_pub_size + box_pub_size + 8 + 8

pub record SessionInit : Type 0 where
  pub current : Bytes
  pub next : Bytes
  pub key_seq : ℕ
  pub seq : ℕ

-- `now` is the time in nanoseconds.
unfoldable pub new_session_init : ℕ → Bytes → Bytes → ℕ → SessionInit
new_session_init now current next key_seq = record {
  current = current;
  next = next;
  key_seq = key_seq;
  seq = now / 1000000000;
}

-- What is signed, behind the key of the message.
unfoldable pub init_bytes : SessionInit → Bytes
init_bytes init = init.current ++ (init.next ++ (be64 init.key_seq ++ be64 init.seq))

-- `encrypt` with the key pair of the call `draw`, as a message of the type `kind`: the method of
-- sessionAck overwrites the first byte. `none` is the panic; the error of `toBox` is always nil.
unfoldable pub encrypt : Box → ℕ → ℕ → Bytes → Bytes → SessionInit → Option Bytes
unfolding init_bytes
encrypt b draw kind from to init =
    let from_pub = (b.new_keys draw).0 in
    let sig_bytes = from_pub ++ init_bytes init in
    let payload = b.ed_sign from sig_bytes ++ drop box_pub_size sig_bytes in
    let bs = b.seal payload 0 (b.shared (b.to_box to) (b.new_keys draw).1) in
    let message = kind ∷ (from_pub ++ bs) in
    if length message == session_init_size then some message else none

-- `decrypt`; `none` is false. A payload that opens has the size of the signature and of what is
-- signed, as the message has its size.
unfoldable pub decrypt : Box → Bytes → Bytes → Bytes → Option SessionInit
decrypt b priv from message = do
  require (length message == session_init_size)
  let from_box = take box_pub_size (drop 1 message)
  payload ← b.open_sealed (drop (1 + box_pub_size) message) 0 (b.shared from_box priv)
  let sig = take ed_sig_size payload
  let tmp = drop ed_sig_size payload
  require (b.ed_check (from_box ++ tmp) sig from)
  some (record {
    current = take box_pub_size tmp;
    next = take box_pub_size (drop box_pub_size tmp);
    key_seq = get_be64 (take 8 (drop (box_pub_size + box_pub_size) tmp));
    seq = get_be64 (drop (box_pub_size + box_pub_size + 8) tmp);
  })

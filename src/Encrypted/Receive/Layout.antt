-- ===== src/Encrypted/Receive/Layout.antt =====
-- sessionInfo.doRecv of ironwood/encrypted/session.go on the bytes that `doSend` lays out.
use yggdrasil_go.Base.{
  ℕ, ◌+◌, ◌≤◌, ◌<◌, ◌≡◌, ◌≢◌, refl, ◌∙◌, arith, ◌++◌, none, some, length, length-append, get_or,
  not_lt→ltb, lt→ltb,
}
use yggdrasil_go.Binary.{
  Bytes, IsU64, put_uvarint, uvarint-put_uvarint, put_uvarint-length, put_uvarint-two,
}
use yggdrasil_go.Encrypted.Box.{Box, BoxLaws}
use yggdrasil_go.Encrypted.Session.{World, Session, traffic_bytes}
use yggdrasil_go.Encrypted.Receive.{
  Header, read_header, ratchet_of, receive_as, receive_known, do_recv, nonce_of, key_of_case,
  unknown, no_ratchet, ratchet, ratchet_early, accept_message, Ratchet,
}

abbrev pub header_of : ℕ → ℕ → ℕ → Bytes → Header
header_of remote_seq local_seq nonce boxed = record {
  remote_seq = remote_seq;
  local_seq = local_seq;
  nonce = nonce;
  boxed = boxed;
}

pub read_header-traffic_bytes :
    (r l n : ℕ) (boxed : Bytes)
    → IsU64 r
    → IsU64 l
    → IsU64 n
    → read_header (traffic_bytes r l n boxed) ≡ some (header_of r l n boxed)
unfolding read_header traffic_bytes
read_header-traffic_bytes r l n boxed hr hl hn = rw (
  uvarint-put_uvarint r (put_uvarint l ++ (put_uvarint n ++ boxed)) hr,
  uvarint-put_uvarint l (put_uvarint n ++ boxed) hl,
  uvarint-put_uvarint n boxed hn,
)

traffic_bytes-length :
    (r l n : ℕ) (boxed : Bytes)
    → length (put_uvarint n) + (length boxed + 3) ≤ length (traffic_bytes r l n boxed)
unfolding traffic_bytes
traffic_bytes-length r l n boxed =
    let (r1, r2) = put_uvarint-length r in
    let (l1, l2) = put_uvarint-length l in
    omega (
      arith,
      length-append (put_uvarint r) (put_uvarint l ++ (put_uvarint n ++ boxed)),
      length-append (put_uvarint l) (put_uvarint n ++ boxed),
      length-append (put_uvarint n) boxed,
    )

traffic_bytes-kind : (r l n : ℕ) (boxed : Bytes) → get_or (traffic_bytes r l n boxed) 0 0 ≡ 3
unfolding traffic_bytes
traffic_bytes-kind r l n boxed = refl

-- A message that is long enough gets to the `switch`.
pub do_recv-traffic_bytes :
    (b : Box) (now r l n : ℕ) (boxed : Bytes) (s : Session) (w : World)
    → IsU64 r
    → IsU64 l
    → IsU64 n
    → 49 ≤ length (put_uvarint n) + length boxed
    → do_recv b now (traffic_bytes r l n boxed) s w
      ≡ receive_as b now (header_of r l n boxed) (ratchet_of r l s) s w
unfolding do_recv
do_recv-traffic_bytes b now r l n boxed s w hr hl hn h =
    let long = traffic_bytes-length r l n boxed in
    rw
      (
        not_lt→ltb (length (traffic_bytes r l n boxed)) 52 (omega arith),
        read_header-traffic_bytes r l n boxed hr hl hn,
        traffic_bytes-kind r l n boxed,
      )
      refl

receive_as-known :
    (b : Box) (now : ℕ) (h : Header) (c : Ratchet) (s : Session) (w : World)
    → c ≢ unknown
    → receive_as b now h c s w ≡ receive_known b now h c s w
unfolding receive_as
receive_as-known b now h no_ratchet s w k = refl
receive_as-known b now h ratchet s w k = refl
receive_as-known b now h ratchet_early s w k = refl
receive_as-known b now h unknown s w k = absurd (k refl)

-- A fresh message of a known case is opened with the key of the case.
pub receive_as-opened :
    (b : Box) (now : ℕ) (h : Header) (c : Ratchet) (s : Session) (w : World) (unboxed : Bytes)
    → c ≢ unknown
    → nonce_of c s < h.nonce
    → b.open_sealed h.boxed h.nonce (key_of_case c s) ≡ some unboxed
    → receive_as b now h c s w ≡ accept_message b now c h.nonce unboxed s w
unfolding receive_known
receive_as-opened b now h c s w unboxed k fresh e =
    receive_as-known b now h c s w k ∙ rw (lt→ltb (nonce_of c s) h.nonce fresh, e) refl

accept_message-short :
    (b : Box) (now : ℕ) (c : Ratchet) (n : ℕ) (unboxed : Bytes) (s : Session) (w : World)
    → length unboxed < 32
    → accept_message b now c n unboxed s w ≡ none
unfolding accept_message
accept_message-short b now c n unboxed s w h = rw (lt→ltb (length unboxed) 32 h) refl

-- A message from the other end of a session, with a fresh nonce of at least 128 and of key numbers
-- that the session knows, panics when what was sealed has 31 bytes.
pub short_payload_panics :
    (b : Box) (laws : BoxLaws b) (now r l n : ℕ) (payload : Bytes) (s : Session) (w : World)
    → IsU64 r
    → IsU64 l
    → IsU64 n
    → ratchet_of r l s ≢ unknown
    → nonce_of (ratchet_of r l s) s < n
    → 128 ≤ n
    → length payload ≡ 31
    → do_recv b now (traffic_bytes r l n (b.seal payload n (key_of_case (ratchet_of r l s) s))) s w
      ≡ none
short_payload_panics b laws now r l n payload s w hr hl hn known fresh h len =
    let c = ratchet_of r l s in
    let boxed = b.seal payload n (key_of_case c s) in
    let size = laws.seal_size payload (key_of_case c s) n in
    let two = put_uvarint-two n h in
    do_recv-traffic_bytes b now r l n boxed s w hr hl hn (omega arith)
    ∙ receive_as-opened b now (header_of r l n boxed) c s w payload known fresh
        (laws.open_seal payload (key_of_case c s) n)
    ∙ accept_message-short b now c n payload s w (omega arith)

-- ===== src/Encrypted/Receive.antt =====
-- sessionInfo.doRecv of ironwood/encrypted/session.go: which keys a message was sealed with, and how
-- the session moves on when it opens.
pub mod Layout
pub mod Replay
pub mod Keeping
pub mod Between
pub mod Agreement
use yggdrasil_go.Base.{
  ℕ, ◌+◌, ◌-◌, ◌%◌, ◌^◌, List, [], ◌∷◌, ◌++◌, Option, none, some, Bool, true, false, not, ◌&&◌,
  ◌||◌, ltb, leb, ◌==◌, if◌then◌else◌, length, take, drop, get_or, ◌>>=◌,
}
use yggdrasil_go.Binary.{Bytes, uvarint}
use yggdrasil_go.Encrypted.Box.{Box}
use yggdrasil_go.Encrypted.Init.{box_pub_size, session_type_traffic}
use yggdrasil_go.Encrypted.Session.{
  World, Session, minute, session_traffic_overhead_min, fix_shared, reset_timer, draw_keys,
  advance_keys, send_init,
}

-- The sequence numbers of the sender's and the receiver's keys, the nonce, and the sealed rest.
pub record Header : Type 0 where
  pub remote_seq : ℕ
  pub local_seq : ℕ
  pub nonce : ℕ
  pub boxed : Bytes

unfoldable pub read_header : Bytes → Option Header
read_header msg = do
  (remote_seq, bs1) ← uvarint (drop 1 msg)
  (local_seq, bs2) ← uvarint bs1
  (nonce, bs3) ← uvarint bs2
  some (record { remote_seq = remote_seq; local_seq = local_seq; nonce = nonce; boxed = bs3 })

-- The cases of the `switch` of `doRecv`.
pub data Ratchet : Type 0 where
  no_ratchet ratchet ratchet_early unknown : Ratchet

unfoldable pub ratchet_of : ℕ → ℕ → Session → Ratchet
ratchet_of remote_seq local_seq s =
    let from_current = remote_seq == s.remote_key_seq in
    let from_next = remote_seq == (s.remote_key_seq + 1) % 2 ^ 64 in
    let to_recv = (local_seq + 1) % 2 ^ 64 == s.local_key_seq in
    let to_send = local_seq == s.local_key_seq in
    if from_current && to_recv
    then no_ratchet
    else if from_next && to_send
    then ratchet
    else if from_next && to_recv
    then ratchet_early
    else unknown

-- The highest nonce that was received with the key of the case.
unfoldable pub nonce_of : Ratchet → Session → ℕ
nonce_of no_ratchet s = s.recv_nonce
nonce_of ratchet s = s.next_send_nonce
nonce_of ratchet_early s = s.next_recv_nonce
nonce_of unknown s = 0

unfoldable pub key_of_case : Ratchet → Session → Bytes
key_of_case no_ratchet s = s.recv_shared
key_of_case ratchet s = s.next_send_shared
key_of_case ratchet_early s = s.next_recv_shared
key_of_case unknown s = []

-- `info.rotated.IsZero() || time.Since(info.rotated) > time.Minute`
unfoldable pub may_rotate : ℕ → Session → Bool
may_rotate now s = elim s.rotated [ none ↦ true | some t ↦ ltb minute (now - t) ]

-- What both ratchets do with the sender's next key.
unfoldable pub rotate : Box → ℕ → ℕ → Bytes → Session → World → Session × World
unfolding advance_keys fix_shared
rotate b now nonce inner_key s w =
    let s1 = record s {
      current = s.next;
      next = inner_key;
      remote_key_seq = (s.remote_key_seq + 1) % 2 ^ 64;
    } in
    (record (fix_shared b nonce 0 (advance_keys b w s1)) { rotated = some now }, draw_keys w)

-- onSuccess
unfoldable pub on_success : Box → ℕ → Ratchet → ℕ → Bytes → Session → World → Session × World
on_success b now no_ratchet nonce inner_key s w = (record s { recv_nonce = nonce }, w)
on_success b now ratchet nonce inner_key s w =
    let s1 = record s { next_send_nonce = nonce } in
    if may_rotate now s then rotate b now nonce inner_key s1 w else (s1, w)
on_success b now ratchet_early nonce inner_key s w =
    let s1 = record s { next_recv_nonce = nonce } in
    if may_rotate now s then rotate b now nonce inner_key s1 w else (s1, w)
on_success b now unknown nonce inner_key s w = (s, w)

-- The message was opened: it is given to the reader, and the session moves on. What follows the
-- key is a slice, which panics on fewer bytes than the key has.
unfoldable pub accept_message :
    Box → ℕ → Ratchet → ℕ → Bytes → Session → World → Option (Session × World)
accept_message b now c nonce unboxed s w =
    let msg = drop box_pub_size unboxed in
    let w1 = record w { received = w.received ++ ((s.ed, msg) ∷ []) } in
    let (s1, w2) = on_success b now c nonce (take box_pub_size unboxed) s w1 in
    if ltb (length unboxed) box_pub_size
    then none
    else some (reset_timer now (record s1 { rx = (s1.rx + length msg) % 2 ^ 64 }), w2)

-- An init is sent, so that the other end sends its keys again.
unfoldable pub ask_again : Box → ℕ → Session → World → Option (Session × World)
ask_again b now s w = send_init b now s w >>= λ w'. some (s, w')

-- A known case: a fresh nonce is asked for before the message is opened.
unfoldable pub receive_known :
    Box → ℕ → Header → Ratchet → Session → World → Option (Session × World)
receive_known b now h c s w =
    if not (ltb (nonce_of c s) h.nonce)
    then some (s, w)
    else elim (b.open_sealed h.boxed h.nonce (key_of_case c s)) [
      | none ↦ ask_again b now s w
      | some unboxed ↦ accept_message b now c h.nonce unboxed s w
    ]

-- `doRecv` from its `switch` on.
unfoldable pub receive_as : Box → ℕ → Header → Ratchet → Session → World → Option (Session × World)
receive_as b now h unknown s w = ask_again b now s w
receive_as b now h c s w = receive_known b now h c s w

-- `none` is a panic.
unfoldable pub do_recv : Box → ℕ → Bytes → Session → World → Option (Session × World)
do_recv b now msg s w =
    if ltb (length msg) session_traffic_overhead_min || not (get_or msg 0 0 == session_type_traffic)
    then some (s, w)
    else elim (read_header msg) [
      | none ↦ some (s, w)
      | some h ↦ receive_as b now h (ratchet_of h.remote_seq h.local_seq s) s w
    ]

-- ===== src/Encrypted/Receive/Agreement.antt =====
-- sessionInfo.doSend at one end and sessionInfo.doRecv at the other, of
-- ironwood/encrypted/session.go.
use yggdrasil_go.Base.{
  ℕ, ◌+◌, ◌%◌, ◌^◌, ◌<◌, ◌≡◌, ◌≢◌, refl, ap, ◌∙◌, arith, [], ◌∷◌, ◌++◌, some, length, take, drop,
  length-append, drop-append_past, not_lt→ltb, ltb, Bool-cases, false, inl, inr,
}
use yggdrasil_go.Binary.{Bytes, IsU64, put_uvarint-length}
use yggdrasil_go.Encrypted.Box.{Box, BoxLaws}
use yggdrasil_go.Encrypted.Session.{World, Session, traffic_message, draw_keys, reset_timer}
use yggdrasil_go.Encrypted.Receive.{
  ratchet_of, do_recv, nonce_of, key_of_case, unknown, no_ratchet, ratchet, ratchet_early, Ratchet,
  accept_message, on_success, rotate, may_rotate,
}
use yggdrasil_go.Encrypted.Receive.Layout.{do_recv-traffic_bytes, receive_as-opened, header_of}

on_success-received :
    (b : Box) (now : ℕ) (c : Ratchet) (n : ℕ) (key : Bytes) (s : Session) (w : World)
    → ((on_success b now c n key s w).1).received ≡ w.received
unfolding on_success rotate draw_keys
on_success-received b now no_ratchet n key s w = refl
on_success-received b now ratchet n key s w = elim (Bool-cases (may_rotate now s)) [
  | inl rotates ↦ rw rotates refl
  | inr stays ↦ rw stays refl
]
on_success-received b now ratchet_early n key s w = elim (Bool-cases (may_rotate now s)) [
  | inl rotates ↦ rw rotates refl
  | inr stays ↦ rw stays refl
]
on_success-received b now unknown n key s w = refl

-- What a session receives is at the end of what the reader was given.
accept_message-received :
    (b : Box) (now : ℕ) (c : Ratchet) (n : ℕ) (key msg : Bytes) (s : Session) (w : World)
    → length key ≡ 32
    → (s' : Session) × (w' : World) × (accept_message b now c n (key ++ msg) s w ≡ some (s', w'))
      × (w'.received ≡ w.received ++ ((s.ed, msg) ∷ []))
unfolding accept_message
accept_message-received b now c n key msg s w kl =
    let e1 : drop 32 (key ++ msg) ≡ msg = drop-append_past 32 0 key msg kl in
    let world = record w { received = w.received ++ ((s.ed, msg) ∷ []) } in
    let size : ltb (length (key ++ msg)) 32 ≡ false =
      not_lt→ltb (length (key ++ msg)) 32 (omega (arith, length-append key msg)) in
    let out = on_success b now c n (take 32 (key ++ msg)) s world in
    let s' = reset_timer now (record out.0 { rx = (out.0.rx + length msg) % 2 ^ 64 }) in
    (s', out.1, rw (size, e1) refl, on_success-received b now c n (take 32 (key ++ msg)) s world)

-- What one end sends is delivered by the other when the key numbers of the message are a case that
-- the other knows, when the key of this case is the one that it was sealed with, and when the nonce
-- is fresh.
pub traffic_message-delivered :
    (b : Box) (laws : BoxLaws b) (now : ℕ) (msg : Bytes) (s r : Session) (w : World)
    → IsU64 s.local_key_seq
    → IsU64 s.remote_key_seq
    → IsU64 s.send_nonce
    → length s.next_pub ≡ 32
    → ratchet_of s.local_key_seq s.remote_key_seq r ≢ unknown
    → key_of_case (ratchet_of s.local_key_seq s.remote_key_seq r) r ≡ s.send_shared
    → nonce_of (ratchet_of s.local_key_seq s.remote_key_seq r) r < s.send_nonce
    → (r' : Session) × (w' : World) × (do_recv b now (traffic_message b msg s) r w ≡ some (r', w'))
      × (w'.received ≡ w.received ++ ((r.ed, msg) ∷ []))
unfolding traffic_message
traffic_message-delivered b laws now msg s r w hl hr hn kl known key fresh =
    let c = ratchet_of s.local_key_seq s.remote_key_seq r in
    let payload = s.next_pub ++ msg in
    let boxed = b.seal payload s.send_nonce s.send_shared in
    let size = laws.seal_size payload s.send_shared s.send_nonce in
    let one = (put_uvarint-length s.send_nonce).0 in
    let opened : b.open_sealed boxed s.send_nonce (key_of_case c r) ≡ some payload =
      ap (b.open_sealed boxed s.send_nonce) key
      ∙ laws.open_seal payload s.send_shared s.send_nonce in
    let (r', w', accepted, received) =
      accept_message-received b now c s.send_nonce s.next_pub msg r w kl in
    let h = header_of s.local_key_seq s.remote_key_seq s.send_nonce boxed in
    (
      r',
      w',
      do_recv-traffic_bytes b now s.local_key_seq s.remote_key_seq s.send_nonce boxed r w hl hr hn
            (omega (arith, length-append s.next_pub msg))
          ∙ receive_as-opened b now h c r w payload known fresh opened
          ∙ accepted,
      received,
    )

-- Key numbers that say: the sender's next key, for the receiver's current one.
pub ratchet_of-next :
    (l r : ℕ) (s : Session)
    → l ≡ (s.remote_key_seq + 1) % 2 ^ 64
    → r ≡ s.local_key_seq
    → ratchet_of l r s ≡ ratchet
unfolding ratchet_of
ratchet_of-next l r s el er = ground arith

-- ===== src/Encrypted/Receive/Between.antt =====
-- What sessionInfo.doRecv of ironwood/encrypted/session.go does with a message that it has handled
-- before, with other messages in between.
use yggdrasil_go.Base.{
  ℕ, ◌≡◌, refl, ◌∙◌, sym, some, inl, inr, Bool-cases, Option-cases, ltb, some_pair, ap, get_or, not,
  ◌||◌, ◌==◌, length,
}
use yggdrasil_go.Binary.{Bytes}
use yggdrasil_go.Encrypted.Box.{Box}
use yggdrasil_go.Encrypted.Init.{session_type_traffic}
use yggdrasil_go.Encrypted.Session.{World, Session, session_traffic_overhead_min, do_send}
use yggdrasil_go.Encrypted.Receive.{Header, ratchet_of, do_recv, read_header}
use yggdrasil_go.Encrypted.Receive.Replay.{Spent, receive_as-Spent, receive_as_idle}
use yggdrasil_go.Encrypted.Receive.Keeping.{Spent-Keeps, do_recv-Keeps, do_send-Keeps}

-- The messages that a session receives and sends, oldest first, none of which moves its keys on.
pub data Continues (b : Box) : Session → World → Session → World → Type 0 where
  done : {s : Session} {w : World} → Continues b s w s w
  received :
      {s s1 s2 : Session} {w w1 w2 : World} (now : ℕ) (msg : Bytes)
      → do_recv b now msg s w ≡ some (s1, w1)
      → s1.local_key_seq ≡ s.local_key_seq
      → Continues b s1 w1 s2 w2
      → Continues b s w s2 w2
  sent :
      {s s1 s2 : Session} {w w1 w2 : World} (now : ℕ) (msg : Bytes)
      → do_send b now msg s w ≡ (s1, w1)
      → s1.local_key_seq ≡ s.local_key_seq
      → Continues b s1 w1 s2 w2
      → Continues b s w s2 w2

-- A message that is spent stays so until the keys move on.
Continues-Spent :
    {b : Box} {s s' : Session} {w w' : World} (h : Header)
    → Spent b h s
    → Continues b s w s' w'
    → Spent b h s'
Continues-Spent h spent done = spent
Continues-Spent {b} {s} {s'} {w} {w'} h spent (received {s1 = s1} {w1 = w1} now msg r e more) =
    Continues-Spent h (Spent-Keeps b h s s1 (do_recv-Keeps b now msg s s1 w w1 r e) spent) more
Continues-Spent {b} {s} {s'} {w} {w'} h spent (sent {s1 = s1} {w1 = w1} now msg r e more) =
    let same : (do_send b now msg s w).0 ≡ s1 = ap (λ z. z.0) r in
    let k = do_send-Keeps b now msg s w (ap Session.local_key_seq same ∙ e) in
    Continues-Spent h (Spent-Keeps b h s s1 (rw same at k) spent) more

-- A message that a session has received delivers nothing when the session receives it again,
-- whatever it caused the first time, a rotation of the keys, a delivery or an init, and whatever
-- messages the session received and sent in between, as long as none of these moved its keys on.
pub received_once :
    (b : Box) (now later : ℕ) (msg : Bytes) (s s1 s2 s3 : Session) (w w1 w2 w3 : World)
    → do_recv b now msg s w ≡ some (s1, w1)
    → Continues b s1 w1 s2 w2
    → do_recv b later msg s2 w2 ≡ some (s3, w3)
    → w3.received ≡ w2.received
unfolding do_recv
received_once b now later msg s s1 s2 s3 w w1 w2 w3 first between second =
    elim (Bool-cases (
      ltb (length msg) session_traffic_overhead_min
      || not (get_or msg 0 0 == session_type_traffic))) [
        | inl dropped ↦ let (_, ew) = some_pair (rw dropped at second) in ap World.received (sym ew)
        | inr kept ↦ elim (Option-cases (read_header msg)) [
          | inl unread ↦
              let (_, ew) = some_pair (rw (kept, unread) at second) in ap World.received (sym ew)
          | inr (h, e) ↦
              let c = ratchet_of h.remote_seq h.local_seq s in
              let c2 = ratchet_of h.remote_seq h.local_seq s2 in
              let spent = receive_as-Spent b now h c s s1 w w1 refl (rw (kept, e) at first) in
              receive_as_idle b later h c2 s2 s3 w2 w3 refl (Continues-Spent h spent between)
                (rw (kept, e) at second)
        ]
      ]

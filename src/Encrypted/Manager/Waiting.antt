-- ===== src/Encrypted/Manager/Waiting.antt =====
-- The session manager of ironwood/encrypted/session.go with a message that waits for a session.
use yggdrasil_go.Base.{
  ℕ, ◌+◌, ◌/◌, ◌^◌, ◌≤◌, ◌<◌, ◌≡◌, refl, ap, ◌∙◌, arith, [], ◌∷◌, ◌++◌, some, none, length,
  append_assoc,
}
use yggdrasil_go.Binary.{Bytes}
use yggdrasil_go.Map.{lookup, insert, delete, bytes_key}
use yggdrasil_go.Map.Laws.{is_in-none, lookup-insert_self}
use yggdrasil_go.Encrypted.Box.{Box, BoxLaws}
use yggdrasil_go.Encrypted.Init.{SessionInit, new_session_init}
use yggdrasil_go.Encrypted.Init.Laws.{IsInit}
use yggdrasil_go.Encrypted.Session.{
  World, Session, write_to, draw_keys, new_session, handle_update, send_ack, fix_shared,
  advance_keys, reset_timer, do_send, next_nonce, traffic_message,
}
use yggdrasil_go.Encrypted.Manager.{
  Manager, Buffer, manager_handle_ack, manager_write_to, buffer_and_init, new_buffer,
  session_for_init, put_session, send_buffered, take_keys,
}
use yggdrasil_go.Encrypted.Manager.Steps.{
  Tells, send_message-sent, new_session-seq, new_session_init-IsInit, handle_init-updates,
}

-- A message for a node with which there is no session is kept, and an init is sent.
pub manager_write_to-new :
    (b : Box) (laws : BoxLaws b) (now : ℕ) (to msg : Bytes) (m : Manager)
    → lookup (b.ed_public to) m.sessions ≡ none
    → lookup (b.ed_public to) m.buffers ≡ none
    → now < 2 ^ 64
    → (bs : Bytes) × (buf : Buffer) × (m' : Manager) × (i : ℕ) × (manager_write_to b now
          (b.ed_public to)
          msg
          m
        ≡ some m')
      × (lookup (b.ed_public to) m'.sessions ≡ none)
      × (lookup (b.ed_public to) m'.buffers ≡ some buf)
      × (m'.world.sent ≡ m.world.sent ++ ((b.ed_public to, bs) ∷ []))
      × (m'.world.secret_ed ≡ m.world.secret_ed)
      × (m'.world.secret_box ≡ m.world.secret_box)
      × Tells b 1 m.world.secret_ed to buf.init bs
      × IsInit buf.init
      × (buf.waiting ≡ some msg)
      × (buf.init.next ≡ (b.new_keys i).0)
      × (buf.next_priv ≡ (b.new_keys i).1)
      × (buf.init.key_seq ≡ 0)
      × (buf.init.seq ≡ now / 1000000000)
unfolding manager_write_to buffer_and_init new_buffer write_to draw_keys new_session_init
manager_write_to-new b laws now to msg m no_session no_buffer time =
    let key = b.ed_public to in
    let made = new_buffer b now m.world in
    let told =
      new_session_init-IsInit b laws now m.world.draws (m.world.draws + 1) 0 time (omega arith) in
    let (bs, tells, sent) = send_message-sent b laws 1 to made.0.init made.1 told in
    let buf = record made.0 { waiting = some msg } in
    let m' = record m {
      buffers = insert key buf m.buffers;
      world = write_to key bs (draw_keys made.1);
    } in
    let done : manager_write_to b now key msg m ≡ some m' =
      rw (no_session, no_buffer, manager_write_to, buffer_and_init, sent) refl in
    (
      bs,
      buf,
      m',
      m.world.draws + 1,
      done,
      no_session,
      lookup-insert_self key buf m.buffers,
      refl,
      refl,
      refl,
      tells,
      told,
      refl,
      refl,
      refl,
      refl,
      refl,
    )

session_for_init-buffered :
    (b : Box) (now : ℕ) (key : Bytes) (init : SessionInit) (buf : Buffer) (m : Manager)
    → lookup key m.sessions ≡ none
    → lookup key m.buffers ≡ some buf
    → let created = new_session b now key init.current init.next init.seq m.world in
      let s = take_keys b buf created.0 in
      session_for_init b now key init m ≡ (
        (s, some buf),
        record m {
          sessions = insert key s m.sessions;
          buffers = delete key m.buffers;
          world = created.1;
        },
      )
unfolding session_for_init
session_for_init-buffered b now key init buf m no_session buffered =
    rw (no_session, buffered, session_for_init) refl

-- The first message of a session.
do_send-first :
    (b : Box) (now : ℕ) (msg : Bytes) (s : Session) (w : World)
    → s.send_nonce ≡ 0
    → ((do_send b now msg s w).1).sent
      ≡ w.sent ++ ((s.ed, traffic_message b msg (record s { send_nonce = 1 })) ∷ [])
unfolding do_send next_nonce write_to
do_send-first b now msg s w e = rw e refl

-- What a node sends after an ack, for which a message was waiting.
pub record Flushed (b : Box) (ack : SessionInit) (buf : Buffer) (s : Session) : Type 0 where
  pub key : s.send_shared ≡ b.shared ack.current buf.next_priv
  pub nonce : s.send_nonce ≡ 1
  pub local_seq : s.local_key_seq ≡ 1
  pub remote_seq : s.remote_key_seq ≡ ack.key_seq
  pub next_size : length s.next_pub ≡ 32

-- The ack that such a node sends before it, in the second of the time `now`.
pub record Follows (now : ℕ) (buf : Buffer) (ack2 : SessionInit) : Type 0 where
  pub current : ack2.current ≡ buf.init.next
  pub key_seq : ack2.key_seq ≡ 1
  pub seq : ack2.seq ≡ now / 1000000000

-- The node with the private key `from` answers the init that was sent with a message waiting.
pub manager_handle_ack-Flushed :
    (b : Box) (laws : BoxLaws b) (now : ℕ) (from msg : Bytes) (ack : SessionInit) (buf : Buffer)
    (m : Manager)
    → lookup (b.ed_public from) m.sessions ≡ none
    → lookup (b.ed_public from) m.buffers ≡ some buf
    → buf.waiting ≡ some msg
    → (i : ℕ) → buf.init.next ≡ (b.new_keys i).0
    → IsInit ack
    → 1 ≤ ack.seq
    → now < 2 ^ 64
    → (bs : Bytes) × (ack2 : SessionInit) × (s : Session) × (m' : Manager) × (manager_handle_ack b
          now
          (b.ed_public from)
          ack
          m
        ≡ some m')
      × (m'.world.sent
          ≡ m.world.sent
            ++ ((b.ed_public from, bs) ∷ (b.ed_public from, traffic_message b msg s) ∷ []))
      × Tells b 2 m.world.secret_ed from ack2 bs
      × Follows now buf ack2
      × Flushed b ack buf s
unfolding manager_handle_ack new_session handle_update send_ack put_session send_buffered write_to
    draw_keys new_session_init fix_shared advance_keys reset_timer take_keys
manager_handle_ack-Flushed b laws now from msg ack buf m no_session buffered waiting i next h fresh
      time =
    let key = b.ed_public from in
    let created = new_session b now key ack.current ack.next ack.seq m.world in
    let s0 = take_keys b buf created.0 in
    let updated = handle_update b now ack s0 created.1 in
    let s1 = updated.0 in
    let drawn = m.world.draws + 3 in
    let told : IsInit (new_session_init now s1.send_pub s1.next_pub s1.local_key_seq) = record {
      current_size = ap length next ∙ laws.key_size i;
      next_size = laws.key_size drawn;
      key_seq_u64 = omega arith;
      seq_u64 = omega arith;
    } in
    let (bs, tells, sent) =
      send_message-sent b laws 2 from
        (new_session_init now s1.send_pub s1.next_pub s1.local_key_seq) updated.1 told in
    let seq = new_session-seq ack.seq fresh h.seq_u64 in
    let w1 = write_to key bs (draw_keys updated.1) in
    let m1 = record m {
      sessions = insert key s0 m.sessions;
      buffers = delete key m.buffers;
      world = created.1;
    } in
    let m2 = put_session key (do_send b now msg s1 w1) m1 in
    let done : manager_handle_ack b now key ack m ≡ some m2 =
      rw
        (
          session_for_init-buffered b now key ack buf m no_session buffered,
          is_in-none key m.sessions no_session,
          handle_init-updates b now ack s0 created.1 w1 seq sent,
          waiting,
        )
        refl in
    let all : m2.world.sent
        ≡ m.world.sent
          ++ ((key, bs) ∷ (key, traffic_message b msg (record s1 { send_nonce = 1 })) ∷ []) =
      do_send-first b now msg s1 w1 refl
      ∙ append_assoc m.world.sent ((key, bs) ∷ [])
          ((key, traffic_message b msg (record s1 { send_nonce = 1 })) ∷ []) in
    (
      bs,
      new_session_init now s1.send_pub s1.next_pub s1.local_key_seq,
      record s1 { send_nonce = 1 },
      m2,
      done,
      all,
      tells,
      record { current = refl; key_seq = refl; seq = refl },
      record {
        key = refl;
        nonce = refl;
        local_seq = refl;
        remote_seq = refl;
        next_size = laws.key_size drawn;
      },
    )

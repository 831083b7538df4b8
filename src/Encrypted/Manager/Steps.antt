-- ===== src/Encrypted/Manager/Steps.antt =====
-- The session manager of ironwood/encrypted/session.go with a node that it has no session with.
use yggdrasil_go.Base.{
  ℕ, ◌+◌, ◌-◌, ◌/◌, ◌%◌, ◌^◌, ◌≤◌, ◌<◌, ◌≡◌, refl, ap, ◌∙◌, arith, [], ◌∷◌, ◌++◌, some, none, false,
  length, get_or, leb, ◌==◌, suc,
}
use yggdrasil_go.Binary.{Bytes, IsU64}
use yggdrasil_go.Map.{lookup, insert, bytes_key}
use yggdrasil_go.Map.Laws.{lookup-insert_self}
use yggdrasil_go.Encrypted.Box.{Box, BoxLaws}
use yggdrasil_go.Encrypted.Init.{SessionInit, new_session_init, decrypt, session_init_size}
use yggdrasil_go.Encrypted.Init.Laws.{IsInit, session_init_round_trip}
use yggdrasil_go.Encrypted.Session.{
  World, Session, send_message, write_to, draw_keys, new_session, handle_init, handle_update,
  send_ack, fix_shared, advance_keys, reset_timer,
}
use yggdrasil_go.Encrypted.Receive.{do_recv}
use yggdrasil_go.Encrypted.Manager.{
  Manager, handle_data, manager_handle_init, manager_handle_ack, manager_handle_traffic,
  session_for_init, put_session, send_buffered,
}

-- A message that tells the init to the node with the private key `to`.
pub record Tells (b : Box) (kind : ℕ) (from to : Bytes) (init : SessionInit) (bs : Bytes)
    : Type 0 where
  pub kind_of : get_or bs 0 0 ≡ kind
  pub size : length bs ≡ session_init_size
  pub opens : decrypt b (b.to_box_private to) (b.ed_public from) bs ≡ some init

pub send_message-sent :
    (b : Box) (laws : BoxLaws b) (kind : ℕ) (to : Bytes) (init : SessionInit) (w : World)
    → IsInit init
    → (bs : Bytes) × Tells b kind w.secret_ed to init bs
      × (send_message b kind (b.ed_public to) init w
          ≡ some (write_to (b.ed_public to) bs (draw_keys w)))
unfolding send_message
send_message-sent b laws kind to init w h =
    let (bs, e, k, l, d) = session_init_round_trip b laws w.draws kind w.secret_ed to init h in
    (bs, record { kind_of = k; size = l; opens = d }, rw e refl)

pub handle_data-init :
    (b : Box) (now : ℕ) (from to bs : Bytes) (init : SessionInit) (m : Manager)
    → Tells b 1 from to init bs
    → m.world.secret_box ≡ b.to_box_private to
    → handle_data b now (b.ed_public from) bs m
      ≡ manager_handle_init b now (b.ed_public from) init m
unfolding handle_data
handle_data-init b now from to bs init m t e =
    let opens : decrypt b m.world.secret_box (b.ed_public from) bs ≡ some init =
      ap (λ k. decrypt b k (b.ed_public from) bs) e ∙ t.opens in
    rw (t.kind_of, t.size, opens) refl

pub handle_data-ack :
    (b : Box) (now : ℕ) (from to bs : Bytes) (ack : SessionInit) (m : Manager)
    → Tells b 2 from to ack bs
    → m.world.secret_box ≡ b.to_box_private to
    → handle_data b now (b.ed_public from) bs m ≡ manager_handle_ack b now (b.ed_public from) ack m
unfolding handle_data
handle_data-ack b now from to bs ack m t e =
    let opens : decrypt b m.world.secret_box (b.ed_public from) bs ≡ some ack =
      ap (λ k. decrypt b k (b.ed_public from) bs) e ∙ t.opens in
    rw (t.kind_of, t.size, opens) refl

==_pos : (n : ℕ) → (suc n == 0) ≡ false
==_pos n = ground arith

pub handle_data-traffic :
    (b : Box) (now : ℕ) (key rest : Bytes) (s s' : Session) (w : World) (m : Manager)
    → lookup key m.sessions ≡ some s
    → do_recv b now (3 ∷ rest) s m.world ≡ some (s', w)
    → handle_data b now key (3 ∷ rest) m ≡ some (put_session key (s', w) m)
unfolding handle_data manager_handle_traffic
handle_data-traffic b now key rest s s' w m found e =
    rw (==_pos (length rest), found, handle_data, manager_handle_traffic, e) refl

-- The number of a new session is below the one of its init, which thus updates it.
pub new_session-seq :
    (seq : ℕ) → 1 ≤ seq → IsU64 seq → leb seq ((seq + 2 ^ 64 - 1) % 2 ^ 64) ≡ false
new_session-seq seq h k = ground arith

pub new_session_init-IsInit :
    (b : Box) (laws : BoxLaws b) (now i j key_seq : ℕ)
    → now < 2 ^ 64
    → IsU64 key_seq
    → IsInit (new_session_init now (b.new_keys i).0 (b.new_keys j).0 key_seq)
unfolding new_session_init
new_session_init-IsInit b laws now i j key_seq h k = record {
  current_size = laws.key_size i;
  next_size = laws.key_size j;
  key_seq_u64 = k;
  seq_u64 = omega arith;
}

-- What a node holds after it answered an init: its session, and the ack that it sent.
pub record Answered (b : Box) (init ack : SessionInit) (s : Session) : Type 0 where
  pub drawn : ℕ
  pub told : ack.current ≡ (b.new_keys drawn).0
  pub private : s.send_priv ≡ (b.new_keys drawn).1
  pub key : s.next_send_shared ≡ b.shared init.next (b.new_keys drawn).1
  pub nonce : s.next_send_nonce ≡ 0
  pub local_seq : s.local_key_seq ≡ 1
  pub told_seq : ack.key_seq ≡ 1
  pub remote_seq : s.remote_key_seq ≡ init.key_seq

session_for_init-new :
    (b : Box) (now : ℕ) (key : Bytes) (init : SessionInit) (m : Manager)
    → lookup key m.sessions ≡ none
    → lookup key m.buffers ≡ none
    → let created = new_session b now key init.current init.next init.seq m.world in
      session_for_init b now key init m ≡ (
        (created.0, none),
        record m { sessions = insert key created.0 m.sessions; world = created.1 },
      )
unfolding session_for_init
session_for_init-new b now key init m no_session no_buffer =
    rw (no_session, no_buffer, session_for_init) refl

-- An init that is new updates the session, and an ack is sent.
pub handle_init-updates :
    (b : Box) (now : ℕ) (init : SessionInit) (s : Session) (w w' : World)
    → leb init.seq s.seq ≡ false
    → let updated = handle_update b now init s w in
      send_ack b now updated.0 updated.1 ≡ some w'
      → handle_init b now init s w ≡ some (updated.0, w')
unfolding handle_init
handle_init-updates b now init s w w' seq sent = rw (seq, sent) refl

-- The node with the private key `to` gets the init of a node that it does not know.
pub manager_handle_init-Answered :
    (b : Box) (laws : BoxLaws b) (now : ℕ) (from : Bytes) (init : SessionInit) (m : Manager)
    → lookup (b.ed_public from) m.sessions ≡ none
    → lookup (b.ed_public from) m.buffers ≡ none
    → IsInit init
    → 1 ≤ init.seq
    → now < 2 ^ 64
    → (bs : Bytes) × (ack : SessionInit) × (s : Session) × (m' : Manager) × (manager_handle_init b
          now
          (b.ed_public from)
          init
          m
        ≡ some m')
      × (lookup (b.ed_public from) m'.sessions ≡ some s)
      × (m'.world.sent ≡ m.world.sent ++ ((b.ed_public from, bs) ∷ []))
      × (m'.world.received ≡ m.world.received)
      × (m'.world.secret_box ≡ m.world.secret_box)
      × Tells b 2 m.world.secret_ed from ack bs
      × IsInit ack
      × (ack.seq ≡ now / 1000000000)
      × (s.ed ≡ b.ed_public from)
      × Answered b init ack s
unfolding manager_handle_init new_session handle_update send_ack put_session send_buffered write_to
    draw_keys new_session_init fix_shared advance_keys reset_timer
manager_handle_init-Answered b laws now from init m no_session no_buffer h fresh time =
    let key = b.ed_public from in
    let created = new_session b now key init.current init.next init.seq m.world in
    let updated = handle_update b now init created.0 created.1 in
    let s = updated.0 in
    let ack = new_session_init now s.send_pub s.next_pub s.local_key_seq in
    let told =
      new_session_init-IsInit b laws now (m.world.draws + 2) (m.world.draws + 3) 1 time
        (omega arith) in
    let (bs, tells, sent) = send_message-sent b laws 2 from ack updated.1 told in
    let seq = new_session-seq init.seq fresh h.seq_u64 in
    let m1 = record m { sessions = insert key created.0 m.sessions; world = created.1 } in
    let m2 = put_session key (s, write_to key bs (draw_keys updated.1)) m1 in
    let done : manager_handle_init b now key init m ≡ some m2 =
      rw
        (
          session_for_init-new b now key init m no_session no_buffer,
          handle_init-updates b now init created.0 created.1 (write_to key bs (draw_keys updated.1))
              seq sent,
        )
        refl in
    (
      bs,
      ack,
      s,
      m2,
      done,
      lookup-insert_self key s m1.sessions,
      refl,
      refl,
      refl,
      tells,
      told,
      refl,
      refl,
      record {
        drawn = m.world.draws + 2;
        told = refl;
        private = refl;
        key = refl;
        nonce = refl;
        local_seq = refl;
        told_seq = refl;
        remote_seq = refl;
      },
    )

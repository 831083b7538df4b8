-- ===== src/Encrypted/Session.antt =====
-- ironwood/encrypted/session.go: sessionInfo, the keys of both ends of a session and their
-- movement. What the session asks of other actors is done at once. A point in time is a number of
-- nanoseconds; the uint64s of the struct wrap around.
use yggdrasil_go.Base.{
  ℕ, ◌+◌, ◌-◌, ◌%◌, ◌^◌, List, [], ◌∷◌, ◌++◌, Option, none, some, leb, ◌==◌, if◌then◌else◌, length,
  ◌>>=◌,
}
use yggdrasil_go.Binary.{Bytes, put_uvarint}
use yggdrasil_go.Encrypted.Box.{Box}
use yggdrasil_go.Encrypted.Init.{
  SessionInit, new_session_init, encrypt, box_pub_size, box_overhead, session_type_init,
  session_type_ack, session_type_traffic,
}

-- What the sessions of a node share: its keys, and what is around it. `draws` counts the key pairs
-- that were made, `next_id` is the identity of the next session or buffer, `sent` what was given
-- to PacketConn.WriteTo with its destination, and `received` what was given to the reader with its
-- sender, oldest first.
pub record World : Type 0 where
  pub secret_ed : Bytes
  pub secret_box : Bytes
  pub draws : ℕ
  pub next_id : ℕ
  pub sent : List (Bytes × Bytes)
  pub received : List (Bytes × Bytes)

-- sessionInfo. `id` stands for its pointer, and `timer` for the time at which its timer fires.
-- `rotated` is none before the first rotation.
pub record Session : Type 0 where
  pub id : ℕ
  pub seq : ℕ
  pub ed : Bytes
  pub remote_key_seq : ℕ
  pub current : Bytes
  pub next : Bytes
  pub local_key_seq : ℕ
  pub recv_priv : Bytes
  pub recv_pub : Bytes
  pub recv_shared : Bytes
  pub recv_nonce : ℕ
  pub send_priv : Bytes
  pub send_pub : Bytes
  pub send_shared : Bytes
  pub send_nonce : ℕ
  pub next_priv : Bytes
  pub next_pub : Bytes
  pub timer : Option ℕ
  pub since : ℕ
  pub rotated : Option ℕ
  pub rx : ℕ
  pub tx : ℕ
  pub next_send_shared : Bytes
  pub next_send_nonce : ℕ
  pub next_recv_shared : Bytes
  pub next_recv_nonce : ℕ

abbrev pub minute : ℕ
minute = 60000000000

-- sessionTimeout
abbrev pub session_timeout : ℕ
session_timeout = minute

-- sessionTrafficOverheadMin
abbrev pub session_traffic_overhead_min : ℕ
session_traffic_overhead_min = 1 + 1 + 1 + 1 + box_overhead + box_pub_size

unfoldable pub fix_shared : Box → ℕ → ℕ → Session → Session
fix_shared b recv_nonce send_nonce s = record s {
  recv_shared = b.shared s.current s.recv_priv;
  send_shared = b.shared s.current s.send_priv;
  next_send_shared = b.shared s.next s.send_priv;
  next_recv_shared = b.shared s.next s.recv_priv;
  next_send_nonce = 0;
  next_recv_nonce = 0;
  recv_nonce = recv_nonce;
  send_nonce = send_nonce;
}

unfoldable pub reset_timer : ℕ → Session → Session
reset_timer now s = record s { timer = some (now + session_timeout) }

unfoldable pub draw_keys : World → World
draw_keys w = record w { draws = w.draws + 1 }

-- newSession, with the pointer's identity, and the timer of `_newSession`.
unfoldable pub new_session : Box → ℕ → Bytes → Bytes → Bytes → ℕ → World → Session × World
unfolding fix_shared
new_session b now ed current next seq w =
    let (recv_pub, recv_priv) = b.new_keys w.draws in
    let (send_pub, send_priv) = b.new_keys (w.draws + 1) in
    let (next_pub, next_priv) = b.new_keys (w.draws + 2) in
    let s : Session = record {
      id = w.next_id;
      seq = (seq + 2 ^ 64 - 1) % 2 ^ 64;
      ed = ed;
      remote_key_seq = 0;
      current = current;
      next = next;
      local_key_seq = 0;
      recv_priv = recv_priv;
      recv_pub = recv_pub;
      recv_shared = [];
      recv_nonce = 0;
      send_priv = send_priv;
      send_pub = send_pub;
      send_shared = [];
      send_nonce = 0;
      next_priv = next_priv;
      next_pub = next_pub;
      timer = some (now + session_timeout);
      since = now;
      rotated = none;
      rx = 0;
      tx = 0;
      next_send_shared = [];
      next_send_nonce = 0;
      next_recv_shared = [];
      next_recv_nonce = 0;
    } in
    (fix_shared b 0 0 s, record w { draws = w.draws + 3; next_id = w.next_id + 1 })

-- `recv` takes over `send`, `send` takes over `next`, and `next` is drawn.
unfoldable pub advance_keys : Box → World → Session → Session
advance_keys b w s = record s {
  recv_pub = s.send_pub;
  recv_priv = s.send_priv;
  send_pub = s.next_pub;
  send_priv = s.next_priv;
  next_pub = (b.new_keys w.draws).0;
  next_priv = (b.new_keys w.draws).1;
  local_key_seq = (s.local_key_seq + 1) % 2 ^ 64;
}

unfoldable pub write_to : Bytes → Bytes → World → World
write_to dest bs w = record w { sent = w.sent ++ ((dest, bs) ∷ []) }

-- sendInit and sendAck of the manager. `none` is the panic of `encrypt`.
unfoldable pub send_message : Box → ℕ → Bytes → SessionInit → World → Option World
send_message b kind dest init w = do
  bs ← encrypt b w.draws kind w.secret_ed dest init
  some (write_to dest bs (draw_keys w))

unfoldable pub send_init : Box → ℕ → Session → World → Option World
send_init b now s w =
    send_message b session_type_init s.ed
      (new_session_init now s.send_pub s.next_pub s.local_key_seq) w

unfoldable pub send_ack : Box → ℕ → Session → World → Option World
send_ack b now s w =
    send_message b session_type_ack s.ed
      (new_session_init now s.send_pub s.next_pub s.local_key_seq) w

unfoldable pub handle_update : Box → ℕ → SessionInit → Session → World → Session × World
unfolding fix_shared reset_timer advance_keys
handle_update b now init s w =
    let s1 = record s {
      current = init.current;
      next = init.next;
      seq = init.seq;
      remote_key_seq = init.key_seq;
    } in
    let s2 = advance_keys b w s1 in (reset_timer now (fix_shared b 0 s2.send_nonce s2), draw_keys w)

unfoldable pub handle_init : Box → ℕ → SessionInit → Session → World → Option (Session × World)
handle_init b now init s w =
    let (s', w') = handle_update b now init s w in
    if leb init.seq s.seq then some (s, w) else (send_ack b now s' w' >>= λ w''. some (s', w''))

unfoldable pub handle_ack : Box → ℕ → SessionInit → Session → World → Session × World
handle_ack b now ack s w = if leb ack.seq s.seq then (s, w) else handle_update b now ack s w

-- The first lines of `doSend`: the nonce moves on, and the keys when it has wrapped around.
unfoldable pub next_nonce : Box → Session → World → Session × World
unfolding fix_shared advance_keys
next_nonce b s w =
    let n = (s.send_nonce + 1) % 2 ^ 64 in
    let s1 = record s { send_nonce = n } in
    if n == 0 then (fix_shared b 0 0 (advance_keys b w s1), draw_keys w) else (s1, w)

-- The bytes of a traffic message around its sealed part.
unfoldable pub traffic_bytes : ℕ → ℕ → ℕ → Bytes → Bytes
traffic_bytes local_seq remote_seq nonce boxed =
    session_type_traffic
    ∷ (put_uvarint local_seq ++ (put_uvarint remote_seq ++ (put_uvarint nonce ++ boxed)))

unfoldable pub traffic_message : Box → Bytes → Session → Bytes
unfolding traffic_bytes
traffic_message b msg s =
    traffic_bytes s.local_key_seq s.remote_key_seq s.send_nonce
      (b.seal (s.next_pub ++ msg) s.send_nonce s.send_shared)

unfoldable pub do_send : Box → ℕ → Bytes → Session → World → Session × World
unfolding next_nonce traffic_message reset_timer write_to
do_send b now msg s w =
    let (s1, w1) = next_nonce b s w in
    let w2 = write_to s1.ed (traffic_message b msg s1) w1 in
    (reset_timer now (record s1 { tx = (s1.tx + length msg) % 2 ^ 64 }), w2)

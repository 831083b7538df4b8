-- ===== src/Encrypted/Manager.antt =====
-- ironwood/encrypted/session.go: sessionManager, which keeps a session for each node, and a message
-- to a node with which there is none until its keys are known. `none` is a panic.
pub mod Steps
pub mod Waiting
pub mod Delivery
pub mod Contact
use yggdrasil_go.Base.{ℕ, ◌+◌, Option, none, some, ◌==◌, if◌then◌else◌, length, get_or, ◌>>=◌}
use yggdrasil_go.Binary.{Bytes}
use yggdrasil_go.Map.{Map, lookup, insert, delete, is_in, bytes_key}
use yggdrasil_go.Encrypted.Box.{Box}
use yggdrasil_go.Encrypted.Init.{
  SessionInit, new_session_init, decrypt, session_type_init, session_type_ack, session_type_traffic,
}
use yggdrasil_go.Encrypted.Session.{
  World, Session, new_session, fix_shared, handle_init, handle_ack, do_send, draw_keys,
  send_message,
}
use yggdrasil_go.Encrypted.Receive.{do_recv}

-- sessionBuffer. `id` stands for its pointer, `waiting` for its data.
pub record Buffer : Type 0 where
  pub id : ℕ
  pub waiting : Option Bytes
  pub init : SessionInit
  pub current_priv : Bytes
  pub next_priv : Bytes

pub record Manager : Type 0 where
  pub sessions : Map Bytes Session
  pub buffers : Map Bytes Buffer
  pub world : World

-- The session takes over the keys that were sent in the buffer's init.
unfoldable pub take_keys : Box → Buffer → Session → Session
take_keys b buf s = fix_shared b 0 0 (record s {
  send_pub = buf.init.current;
  send_priv = buf.current_priv;
  next_pub = buf.init.next;
  next_priv = buf.next_priv;
})

-- The session, which is in the map afterwards, and the buffer that was waiting for it.
unfoldable pub session_for_init :
    Box → ℕ → Bytes → SessionInit → Manager → (Session × Option Buffer) × Manager
session_for_init b now pub_key init m = elim (lookup pub_key m.sessions) [
  | some s ↦ ((s, none), m)
  | none ↦
      let (s, w) = new_session b now pub_key init.current init.next init.seq m.world in
      elim (lookup pub_key m.buffers) [
        | none ↦ ((s, none), record m { sessions = insert pub_key s m.sessions; world = w })
        | some buf ↦
            let s' = take_keys b buf s in
            (
              (s', some buf),
              record {
                sessions = insert pub_key s' m.sessions;
                buffers = delete pub_key m.buffers;
                world = w;
              },
            )
      ]
]

-- What the session's handler leaves.
unfoldable pub put_session : Bytes → Session × World → Manager → Manager
put_session pub_key (s, w) m = record m { sessions = insert pub_key s m.sessions; world = w }

-- The data of the buffer is sent once there is a session.
unfoldable pub send_buffered : Box → ℕ → Option Buffer → Session × World → Session × World
send_buffered b now none (s, w) = (s, w)
send_buffered b now (some buf) (s, w) = elim buf.waiting [
  | none ↦ (s, w)
  | some msg ↦ do_send b now msg s w
]

unfoldable pub manager_handle_init : Box → ℕ → Bytes → SessionInit → Manager → Option Manager
manager_handle_init b now pub_key init m =
    let ((s, buf), m1) = session_for_init b now pub_key init m in
    handle_init b now init s m1.world >>= λ r.
    some (put_session pub_key (send_buffered b now buf r) m1)

unfoldable pub manager_handle_ack : Box → ℕ → Bytes → SessionInit → Manager → Option Manager
manager_handle_ack b now pub_key ack m =
    let ((s, buf), m1) = session_for_init b now pub_key ack m in
    let handled : Option (Session × World) =
      if is_in pub_key m.sessions
      then some (handle_ack b now ack s m1.world)
      else handle_init b now ack s m1.world in
    handled >>= λ r. some (put_session pub_key (send_buffered b now buf r) m1)

-- With no session, an init is sent with keys that are forgotten.
unfoldable pub manager_handle_traffic : Box → ℕ → Bytes → Bytes → Manager → Option Manager
manager_handle_traffic b now pub_key msg m = elim (lookup pub_key m.sessions) [
  | some s ↦ do_recv b now msg s m.world >>= λ r. some (put_session pub_key r m)
  | none ↦
      let current = (b.new_keys m.world.draws).0 in
      let next = (b.new_keys (m.world.draws + 1)).0 in
      send_message b session_type_init pub_key (new_session_init now current next 0)
        (draw_keys (draw_keys m.world))
      >>= λ w. some (record m { world = w })
]

unfoldable pub handle_data : Box → ℕ → Bytes → Bytes → Manager → Option Manager
handle_data b now pub_key bs m =
    let kind = get_or bs 0 0 in
    if length bs == 0
    then some m
    else if kind == session_type_init
    then elim (decrypt b m.world.secret_box pub_key bs) [
      | none ↦ some m
      | some init ↦ manager_handle_init b now pub_key init m
    ]
    else if kind == session_type_ack
    then elim (decrypt b m.world.secret_box pub_key bs) [
      | none ↦ some m
      | some ack ↦ manager_handle_ack b now pub_key ack m
    ]
    else if kind == session_type_traffic
    then manager_handle_traffic b now pub_key bs m
    else some m

-- A new buffer, with the keys that its init tells.
unfoldable pub new_buffer : Box → ℕ → World → Buffer × World
new_buffer b now w =
    let (current_pub, current_priv) = b.new_keys w.draws in
    let (next_pub, next_priv) = b.new_keys (w.draws + 1) in
    (
      record {
        id = w.next_id;
        waiting = none;
        init = new_session_init now current_pub next_pub 0;
        current_priv = current_priv;
        next_priv = next_priv;
      },
      record w { draws = w.draws + 2; next_id = w.next_id + 1 },
    )

unfoldable pub buffer_and_init : Box → ℕ → Bytes → Bytes → Manager → Option Manager
buffer_and_init b now to_key msg m =
    let (buf, w) : Buffer × World = elim (lookup to_key m.buffers) [
      | none ↦ new_buffer b now m.world
      | some old ↦ (old, m.world)
    ] in
    send_message b session_type_init to_key buf.init w >>= λ w'.
    some (record m {
      buffers = insert to_key (record buf { waiting = some msg }) m.buffers;
      world = w';
    })

unfoldable pub manager_write_to : Box → ℕ → Bytes → Bytes → Manager → Option Manager
manager_write_to b now to_key msg m = elim (lookup to_key m.sessions) [
  | some s ↦ some (put_session to_key (do_send b now msg s m.world) m)
  | none ↦ buffer_and_init b now to_key msg m
]

-- The timers: they delete what they were started for, if it is still there.
unfoldable pub session_expired : Bytes → ℕ → Manager → Manager
session_expired key id m = elim (lookup key m.sessions) [
  | none ↦ m
  | some s ↦ if s.id == id then record m { sessions = delete key m.sessions } else m
]

unfoldable pub buffer_expired : Bytes → ℕ → Manager → Manager
buffer_expired key id m = elim (lookup key m.buffers) [
  | none ↦ m
  | some buf ↦ if buf.id == id then record m { buffers = delete key m.buffers } else m
]

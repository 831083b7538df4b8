-- ===== src/Tests/Encrypted.antt =====
-- Encrypted sessions, with numbers in place of keys.
use yggdrasil_go.Base.{
  ℕ, ◌+◌, ◌≡◌, refl, [], ◌∷◌, ◌++◌, Option, none, some, ◌&&◌, ◌==◌, ==_refl, if◌then◌else◌, length,
  drop, replicate, get_or, arith,
}
use yggdrasil_go.Binary.{Bytes, uvarint, uvarint_from}
use yggdrasil_go.Encrypted.Box.{Box, BoxLaws}
use yggdrasil_go.Encrypted.Init.{SessionInit, encrypt, decrypt, session_init_size}
use yggdrasil_go.Encrypted.Init.Laws.{IsInit, session_init_round_trip}
use yggdrasil_go.Encrypted.Session.{
  World, Session, traffic_bytes, traffic_message, reset_timer, advance_keys, fix_shared, draw_keys,
}
use yggdrasil_go.Encrypted.Receive.{
  do_recv, ratchet_of, key_of_case, nonce_of, read_header, receive_known, receive_as,
  accept_message, on_success, rotate, may_rotate,
}
use yggdrasil_go.Map.{lookup}
use yggdrasil_go.Encrypted.Receive.Between.{done, received, received_once}
use yggdrasil_go.Encrypted.Receive.Agreement.{traffic_message-delivered}
use yggdrasil_go.Encrypted.Receive.Layout.{short_payload_panics}
use yggdrasil_go.Encrypted.Manager.{Manager, handle_data, manager_write_to}
use yggdrasil_go.Encrypted.Manager.Contact.{first_contact}

-- A key is named by its first byte. What is sealed begins with the key and the nonce.
abbrev toy_open : Bytes → ℕ → Bytes → Option Bytes
toy_open bs nonce key =
    if (get_or bs 0 0 == get_or key 0 0) && (get_or bs 1 0 == nonce)
    then some (drop 16 bs)
    else none

abbrev toy : Box
toy = record {
  new_keys = λ i. (replicate 32 i, replicate 32 i);
  shared = λ public private. (get_or public 0 0 + get_or private 0 0) ∷ [];
  seal = λ msg nonce key. get_or key 0 0 ∷ (nonce ∷ (replicate 14 0 ++ msg));
  open_sealed = toy_open;
  ed_sign = λ private msg. replicate 64 (get_or private 0 0);
  ed_check = λ msg sig public. get_or sig 0 0 == get_or public 0 0;
  ed_public = λ private. private;
  to_box = λ public. public;
  to_box_private = λ private. private;
}

one_byte : (a c : ℕ) → a ≡ c → ◌≡◌ {A = Bytes} (a ∷ []) (c ∷ [])
one_byte a c e = rw e refl

toy-BoxLaws : BoxLaws toy
toy-BoxLaws = record {
  open_seal = λ msg key nonce. rw (==_refl (get_or key 0 0), ==_refl nonce) refl;
  seal_size = λ msg key nonce. omega arith;
  agree = λ i j. one_byte (i + j) (j + i) (omega arith);
  agree_ed = λ i private. one_byte (get_or private 0 0 + i) (i + get_or private 0 0) (omega arith);
  key_size = λ i. refl;
  signature_size = λ msg private. refl;
  signature_valid = λ msg private. ==_refl (get_or private 0 0);
}

abbrev told : SessionInit
told = record { current = replicate 32 5; next = replicate 32 6; key_seq = 3; seq = 100 }

told-IsInit : IsInit told
told-IsInit = record {
  current_size = refl;
  next_size = refl;
  key_seq_u64 = omega arith;
  seq_u64 = omega arith;
}

session_init_round_trip_example :
    (bs : Bytes) × (encrypt toy 9 1 (40 ∷ []) (50 ∷ []) told ≡ some bs)
    × (get_or bs 0 0 ≡ 1)
    × (length bs ≡ session_init_size)
    × (decrypt toy (50 ∷ []) (40 ∷ []) bs ≡ some told)
session_init_round_trip_example =
    session_init_round_trip toy toy-BoxLaws 9 1 (40 ∷ []) (50 ∷ []) told told-IsInit

abbrev world_of : ℕ → World
world_of key = record {
  secret_ed = key ∷ [];
  secret_box = key ∷ [];
  draws = key;
  next_id = 0;
  sent = [];
  received = [];
}

abbrev node_of : ℕ → Manager
node_of key = record { sessions = []; buffers = []; world = world_of key }

first_contact_example :
    (init : Bytes) × (a1 : Manager) × (ack : Bytes) × (o1 : Manager) × (ack2 : Bytes)
    × (traffic : Bytes) × (a2 : Manager) × (o2 : Manager) × (o3 : Manager) × (skipped : Manager)
    × (manager_write_to toy 2000000000 (50 ∷ []) (1 ∷ 2 ∷ []) (node_of 40) ≡ some a1)
    × (a1.world.sent ≡ ((50 ∷ [], init) ∷ []))
    × (handle_data toy 2000000005 (40 ∷ []) init (node_of 50) ≡ some o1)
    × (o1.world.sent ≡ ((40 ∷ [], ack) ∷ []))
    × (handle_data toy 3000000009 (50 ∷ []) ack a1 ≡ some a2)
    × (a2.world.sent ≡ a1.world.sent ++ ((50 ∷ [], ack2) ∷ (50 ∷ [], traffic) ∷ []))
    × (handle_data toy 3000000011 (40 ∷ []) ack2 o1 ≡ some o2)
    × (handle_data toy 3000000015 (40 ∷ []) traffic o2 ≡ some o3)
    × (o3.world.received ≡ ((40 ∷ [], 1 ∷ 2 ∷ []) ∷ []))
    × (handle_data toy 3000000015 (40 ∷ []) traffic o1 ≡ some skipped)
    × (skipped.world.received ≡ ((40 ∷ [], 1 ∷ 2 ∷ []) ∷ []))
unfolding lookup
first_contact_example =
    first_contact toy toy-BoxLaws 2000000000 2000000005 3000000009 3000000011 3000000015
      (1 ∷ 2 ∷ []) (node_of 40) (node_of 50)
      (record { box_key = refl; after_first_second = omega arith; time_u64 = omega arith })
      (record { box_key = refl; after_first_second = omega arith; time_u64 = omega arith })
      (omega arith) (record { no_session = refl; no_buffer = refl })
      (record { no_session = refl; no_buffer = refl })

-- A session in which all numbers of the other end are known.
abbrev running : Session
running = record {
  id = 0;
  seq = 100;
  ed = 40 ∷ [];
  remote_key_seq = 1;
  current = 3 ∷ [];
  next = 4 ∷ [];
  local_key_seq = 2;
  recv_priv = 5 ∷ [];
  recv_pub = 5 ∷ [];
  recv_shared = 8 ∷ [];
  recv_nonce = 6;
  send_priv = 7 ∷ [];
  send_pub = 7 ∷ [];
  send_shared = 10 ∷ [];
  send_nonce = 0;
  next_priv = 9 ∷ [];
  next_pub = 9 ∷ [];
  timer = none;
  since = 0;
  rotated = none;
  rx = 0;
  tx = 0;
  next_send_shared = 11 ∷ [];
  next_send_nonce = 0;
  next_recv_shared = 9 ∷ [];
  next_recv_nonce = 0;
}

short_payload_panics_example :
    do_recv toy 0
      (traffic_bytes 1 1 200 (8 ∷ (200 ∷ (replicate 14 0 ++ replicate 31 1))))
      running
      (world_of 50)
    ≡ none
unfolding ratchet_of key_of_case nonce_of
short_payload_panics_example =
    short_payload_panics toy toy-BoxLaws 0 1 1 200 (replicate 31 1) running (world_of 50)
      (omega arith) (omega arith) (omega arith) (λ e. cc) (omega arith) (omega arith) refl

abbrev sender : Session
sender = record running {
  ed = 50 ∷ [];
  local_key_seq = 1;
  remote_key_seq = 1;
  send_nonce = 7;
  send_shared = 8 ∷ [];
  next_pub = replicate 32 9;
}

traffic_message-delivered_example :
    (r' : Session) × (w' : World) × (do_recv toy 0
        (traffic_message toy (1 ∷ 2 ∷ []) sender)
        running
        (world_of 50)
      ≡ some (r', w'))
    × (w'.received ≡ ((40 ∷ [], 1 ∷ 2 ∷ []) ∷ []))
unfolding ratchet_of key_of_case nonce_of
traffic_message-delivered_example =
    traffic_message-delivered toy toy-BoxLaws 0 (1 ∷ 2 ∷ []) sender running (world_of 50)
      (omega arith) (omega arith) (omega arith) refl (λ e. cc) refl (omega arith)

abbrev result_or : Session × World → Option (Session × World) → Session × World
result_or start none = start
result_or start (some r) = r

abbrev start : Session × World
start = (running, world_of 50)

abbrev message : Bytes
message = 3 ∷ 1 ∷ 1 ∷ 7 ∷ 8 ∷ 7 ∷ (replicate 14 0 ++ (replicate 32 9 ++ (1 ∷ 2 ∷ [])))

abbrev after_first : Session × World
after_first = result_or start (do_recv toy 0 message running (world_of 50))

-- The first time it is delivered.
delivered_first : after_first.1.received ≡ ((40 ∷ [], 1 ∷ 2 ∷ []) ∷ [])
unfolding do_recv read_header ratchet_of nonce_of key_of_case receive_known receive_as
    accept_message on_success reset_timer uvarint uvarint_from
delivered_first = refl

-- Another message, with a later nonce.
abbrev other : Bytes
other = 3 ∷ 1 ∷ 1 ∷ 9 ∷ 8 ∷ 9 ∷ (replicate 14 0 ++ (replicate 32 9 ++ (5 ∷ [])))

abbrev after_other : Session × World
after_other = result_or start (do_recv toy 3 other after_first.0 after_first.1)

abbrev after_second : Session × World
after_second = result_or start (do_recv toy 5 message after_other.0 after_other.1)

received_once_example : after_second.1.received ≡ after_other.1.received
unfolding do_recv read_header ratchet_of nonce_of key_of_case receive_known receive_as
    accept_message on_success reset_timer uvarint uvarint_from
received_once_example =
    received_once toy 0 5 message running after_first.0 after_other.0 after_second.0 (world_of 50)
      after_first.1 after_other.1 after_second.1 refl (received 3 other refl refl done) refl

-- A message for the next keys, within a minute of a rotation; then one for the next keys of the
-- other end alone, with a smaller nonce, which moves the keys on; and the first one again.
abbrev rotated_once : Session
rotated_once = record running { rotated = some 0 }

abbrev ahead : Bytes
ahead = 3 ∷ 2 ∷ 2 ∷ 10 ∷ 11 ∷ 10 ∷ (replicate 14 0 ++ (replicate 32 9 ++ (1 ∷ 2 ∷ [])))

abbrev early : Bytes
early = 3 ∷ 2 ∷ 1 ∷ 3 ∷ 9 ∷ 3 ∷ (replicate 14 0 ++ (replicate 32 9 ++ (5 ∷ [])))

abbrev after_ahead : Session × World
after_ahead = result_or start (do_recv toy 0 ahead rotated_once (world_of 50))

abbrev after_early : Session × World
after_early = result_or start (do_recv toy 120000000000 early after_ahead.0 after_ahead.1)

abbrev after_replay : Session × World
after_replay = result_or start (do_recv toy 120000000001 ahead after_early.0 after_early.1)

replay_after_early :
    after_replay.1.received
    ≡ ((40 ∷ [], 1 ∷ 2 ∷ []) ∷ (40 ∷ [], 5 ∷ []) ∷ (40 ∷ [], 1 ∷ 2 ∷ []) ∷ [])
unfolding do_recv read_header ratchet_of nonce_of key_of_case receive_known receive_as
    accept_message on_success rotate may_rotate advance_keys fix_shared reset_timer draw_keys
    uvarint uvarint_from
replay_after_early = refl

-- ===== src/Encrypted/Receive/Keeping.antt =====
-- What the messages of ironwood/encrypted/session.go leave as it is while the keys do not move on.
use yggdrasil_go.Base.{
  ℕ, ◌+◌, ◌%◌, ◌^◌, ◌≤◌, ◌≡◌, refl, ◌∙◌, sym, arith, some, ◌++◌, [], ◌∷◌, inl, inr, Bool-cases,
  Option-cases, ltb, ltb→lt, some_pair, ap, get_or, not, ◌||◌, ◌==◌, length, take, drop,
}
use yggdrasil_go.Binary.{Bytes}
use yggdrasil_go.Encrypted.Box.{Box}
use yggdrasil_go.Encrypted.Init.{box_pub_size, session_type_traffic}
use yggdrasil_go.Encrypted.Session.{
  World, Session, advance_keys, fix_shared, reset_timer, session_traffic_overhead_min, next_nonce,
  do_send,
}
use yggdrasil_go.Encrypted.Receive.{
  Header, Ratchet, unknown, no_ratchet, ratchet, ratchet_early, ratchet_of, nonce_of, key_of_case,
  receive_as, receive_known, do_recv, accept_message, on_success, rotate, may_rotate, read_header,
}
use yggdrasil_go.Encrypted.Receive.Replay.{Spent, ask_again_lem}

-- The keys for what is received are the same, and no nonce is smaller.
pub record Keeps (s s' : Session) : Type 0 where
  local_seq : s'.local_key_seq ≡ s.local_key_seq
  remote_seq : s'.remote_key_seq ≡ s.remote_key_seq
  recv_key : s'.recv_shared ≡ s.recv_shared
  next_send_key : s'.next_send_shared ≡ s.next_send_shared
  next_recv_key : s'.next_recv_shared ≡ s.next_recv_shared
  recv_nonce : s.recv_nonce ≤ s'.recv_nonce
  next_send_nonce : s.next_send_nonce ≤ s'.next_send_nonce
  next_recv_nonce : s.next_recv_nonce ≤ s'.next_recv_nonce

Keeps-nonces :
    (s : Session) (recv next_send next_recv : ℕ)
    → s.recv_nonce ≤ recv
    → s.next_send_nonce ≤ next_send
    → s.next_recv_nonce ≤ next_recv
    → Keeps s
        (record s { recv_nonce = recv; next_send_nonce = next_send; next_recv_nonce = next_recv })
Keeps-nonces s recv next_send next_recv h k l = record {
  local_seq = refl;
  remote_seq = refl;
  recv_key = refl;
  next_send_key = refl;
  next_recv_key = refl;
  recv_nonce = h;
  next_send_nonce = k;
  next_recv_nonce = l;
}

Keeps-refl : (s : Session) → Keeps s s
Keeps-refl s =
    Keeps-nonces s s.recv_nonce s.next_send_nonce s.next_recv_nonce (omega arith) (omega arith)
      (omega arith)

moved_on : (n m : ℕ) → m ≡ (n + 1) % 2 ^ 64 → m ≡ n → ⊥
moved_on n m e k = omega arith

nonce_of-Keeps : (c : Ratchet) (s s' : Session) → Keeps s s' → nonce_of c s ≤ nonce_of c s'
unfolding nonce_of
nonce_of-Keeps no_ratchet s s' k = k.recv_nonce
nonce_of-Keeps ratchet s s' k = k.next_send_nonce
nonce_of-Keeps ratchet_early s s' k = k.next_recv_nonce
nonce_of-Keeps unknown s s' k = omega arith

key_of_case-Keeps : (c : Ratchet) (s s' : Session) → Keeps s s' → key_of_case c s' ≡ key_of_case c s
unfolding key_of_case
key_of_case-Keeps no_ratchet s s' k = k.recv_key
key_of_case-Keeps ratchet s s' k = k.next_send_key
key_of_case-Keeps ratchet_early s s' k = k.next_recv_key
key_of_case-Keeps unknown s s' k = refl

ratchet_of-Keeps : (r l : ℕ) (s s' : Session) → Keeps s s' → ratchet_of r l s' ≡ ratchet_of r l s
unfolding ratchet_of
ratchet_of-Keeps r l s s' k = rw (k.local_seq, k.remote_seq) refl

pub Spent-Keeps : (b : Box) (h : Header) (s s' : Session) → Keeps s s' → Spent b h s → Spent b h s'
Spent-Keeps b h s s' k spent =
    let c = ratchet_of h.remote_seq h.local_seq s in
    rw (ratchet_of-Keeps h.remote_seq h.local_seq s s' k) (elim spent [
      | inl e ↦ inl e
      | inr (inl le) ↦ inr (inl (omega (arith, nonce_of-Keeps c s s' k)))
      | inr (inr sealed) ↦ inr (inr (rw (key_of_case-Keeps c s s' k) sealed))
    ])

module _ (b : Box) (now : ℕ) where
  on_success-Keeps :
      (c : Ratchet) (nonce : ℕ) (key : Bytes) (s : Session) (w : World)
      → nonce_of c s ≤ nonce
      → (on_success b now c nonce key s w).0.local_key_seq ≡ s.local_key_seq
      → Keeps s (on_success b now c nonce key s w).0
  unfolding on_success rotate advance_keys fix_shared nonce_of
  on_success-Keeps no_ratchet nonce key s w le e =
      Keeps-nonces s nonce s.next_send_nonce s.next_recv_nonce le (omega arith) (omega arith)
  on_success-Keeps ratchet nonce key s w le e = elim (Bool-cases (may_rotate now s)) [
    | inl rotates ↦ absurd (moved_on s.local_key_seq _ refl (rw rotates at e))
    | inr stays ↦
        rw stays
          (Keeps-nonces s s.recv_nonce nonce s.next_recv_nonce (omega arith) le (omega arith))
  ]
  on_success-Keeps ratchet_early nonce key s w le e = elim (Bool-cases (may_rotate now s)) [
    | inl rotates ↦ absurd (moved_on s.local_key_seq _ refl (rw rotates at e))
    | inr stays ↦
        rw stays
          (Keeps-nonces s s.recv_nonce s.next_send_nonce nonce (omega arith) (omega arith) le)
  ]
  on_success-Keeps unknown nonce key s w le e = Keeps-refl s

  -- Counting bytes and setting the timer do not matter.
  Keeps-counted :
      (x : ℕ) (s s' : Session) → Keeps s s' → Keeps s (reset_timer now (record s' { rx = x }))
  unfolding reset_timer
  Keeps-counted x s s' k = record {
    local_seq = k.local_seq;
    remote_seq = k.remote_seq;
    recv_key = k.recv_key;
    next_send_key = k.next_send_key;
    next_recv_key = k.next_recv_key;
    recv_nonce = k.recv_nonce;
    next_send_nonce = k.next_send_nonce;
    next_recv_nonce = k.next_recv_nonce;
  }

  accept_message-Keeps :
      (c : Ratchet) (nonce : ℕ) (unboxed : Bytes) (s s1 : Session) (w w1 : World)
      → nonce_of c s ≤ nonce
      → accept_message b now c nonce unboxed s w ≡ some (s1, w1)
      → s1.local_key_seq ≡ s.local_key_seq
      → Keeps s s1
  unfolding accept_message reset_timer
  accept_message-Keeps c nonce unboxed s s1 w w1 le r e =
      elim (Bool-cases (ltb (length unboxed) 32)) [
        | inl short ↦ absurd cc
        | inr long ↦
            let msg = drop box_pub_size unboxed in
            let world = record w { received = w.received ++ ((s.ed, msg) ∷ []) } in
            let key = take box_pub_size unboxed in
            let s' = (on_success b now c nonce key s world).0 in
            let (es, _) = some_pair (rw long at r) in
            let k = on_success-Keeps c nonce key s world le (ap Session.local_key_seq es ∙ e) in
            rw (sym es) (Keeps-counted ((s'.rx + length msg) % 2 ^ 64) s s' k)
      ]

  receive_known-Keeps :
      (h : Header) (c : Ratchet) (s s1 : Session) (w w1 : World)
      → receive_known b now h c s w ≡ some (s1, w1)
      → s1.local_key_seq ≡ s.local_key_seq
      → Keeps s s1
  unfolding receive_known
  receive_known-Keeps h c s s1 w w1 r e = elim (Bool-cases (ltb (nonce_of c s) h.nonce)) [
    | inr stale ↦ let (es, _) = some_pair (rw stale at r) in rw (sym es) (Keeps-refl s)
    | inl fresh ↦ elim (Option-cases (b.open_sealed h.boxed h.nonce (key_of_case c s))) [
      | inl sealed ↦
          let (es, _) = ask_again_lem b now s s1 w w1 (rw (fresh, sealed) at r) in
          rw es (Keeps-refl s)
      | inr (unboxed, opened) ↦
          accept_message-Keeps c h.nonce unboxed s s1 w w1
            (omega (arith, ltb→lt (nonce_of c s) h.nonce fresh)) (rw (fresh, opened) at r) e
    ]
  ]

  receive_as-Keeps :
      (h : Header) (c : Ratchet) (s s1 : Session) (w w1 : World)
      → receive_as b now h c s w ≡ some (s1, w1)
      → s1.local_key_seq ≡ s.local_key_seq
      → Keeps s s1
  unfolding receive_as
  receive_as-Keeps h unknown s s1 w w1 r e = rw (ask_again_lem b now s s1 w w1 r).0 (Keeps-refl s)
  receive_as-Keeps h no_ratchet s s1 w w1 r e = receive_known-Keeps h no_ratchet s s1 w w1 r e
  receive_as-Keeps h ratchet s s1 w w1 r e = receive_known-Keeps h ratchet s s1 w w1 r e
  receive_as-Keeps h ratchet_early s s1 w w1 r e = receive_known-Keeps h ratchet_early s s1 w w1 r e

  pub do_recv-Keeps :
      (msg : Bytes) (s s1 : Session) (w w1 : World)
      → do_recv b now msg s w ≡ some (s1, w1)
      → s1.local_key_seq ≡ s.local_key_seq
      → Keeps s s1
  unfolding do_recv
  do_recv-Keeps msg s s1 w w1 r e =
      elim (Bool-cases (
        ltb (length msg) session_traffic_overhead_min
        || not (get_or msg 0 0 == session_type_traffic))) [
          | inl dropped ↦ let (es, _) = some_pair (rw dropped at r) in rw (sym es) (Keeps-refl s)
          | inr kept ↦ elim (Option-cases (read_header msg)) [
            | inl unread ↦
                let (es, _) = some_pair (rw (kept, unread) at r) in rw (sym es) (Keeps-refl s)
            | inr (h, found) ↦
                receive_as-Keeps h (ratchet_of h.remote_seq h.local_seq s) s s1 w w1
                  (rw (kept, found) at r) e
          ]
        ]

  pub do_send-Keeps :
      (msg : Bytes) (s : Session) (w : World)
      → (do_send b now msg s w).0.local_key_seq ≡ s.local_key_seq
      → Keeps s (do_send b now msg s w).0
  unfolding do_send next_nonce advance_keys fix_shared reset_timer
  do_send-Keeps msg s w e = elim (Bool-cases ((s.send_nonce + 1) % 2 ^ 64 == 0)) [
    | inl wraps ↦ absurd (moved_on s.local_key_seq _ refl (rw wraps at e))
    | inr stays ↦ rw stays (record {
      local_seq = refl;
      remote_seq = refl;
      recv_key = refl;
      next_send_key = refl;
      next_recv_key = refl;
      recv_nonce = omega arith;
      next_send_nonce = omega arith;
      next_recv_nonce = omega arith;
    })
  ]

-- ===== src/Encrypted/Receive/Replay.antt =====
-- What sessionInfo.doRecv of ironwood/encrypted/session.go does with a message that it has handled
-- before.
use yggdrasil_go.Base.{
  ℕ, ◌+◌, ◌%◌, ◌^◌, ◌≤◌, ◌≡◌, refl, ◌∙◌, sym, arith, none, some, ◌++◌, [], ◌∷◌, ◌⊎◌, inl, inr,
  Bool-cases, Option-cases, ltb, ltb_false→le, not_lt→ltb, >>=-eq-some, some_pair, ap, length, take,
  drop,
}
use yggdrasil_go.Binary.{Bytes}
use yggdrasil_go.Encrypted.Box.{Box}
use yggdrasil_go.Encrypted.Init.{SessionInit, encrypt, box_pub_size}
use yggdrasil_go.Encrypted.Session.{
  World, Session, advance_keys, fix_shared, reset_timer, send_init, send_message, write_to,
  draw_keys,
}
use yggdrasil_go.Encrypted.Receive.{
  Header, Ratchet, unknown, no_ratchet, ratchet, ratchet_early, ratchet_of, nonce_of, key_of_case,
  receive_as, receive_known, accept_message, on_success, rotate, may_rotate, ask_again,
}

-- The message of the header is not delivered: its key numbers are not known, its nonce is not
-- fresh, or it does not open.
abbrev pub Spent : Box → Header → Session → Type 0
Spent b h s =
    let c = ratchet_of h.remote_seq h.local_seq s in
    (c ≡ unknown)
    ⊎ ((h.nonce ≤ nonce_of c s) ⊎ (b.open_sealed h.boxed h.nonce (key_of_case c s) ≡ none))

send_message-received :
    (b : Box) (kind : ℕ) (dest : Bytes) (init : SessionInit) (w w' : World)
    → send_message b kind dest init w ≡ some w'
    → w'.received ≡ w.received
unfolding send_message write_to draw_keys
send_message-received b kind dest init w w' e =
    let (bs, _, e1) = >>=-eq-some (encrypt b w.draws kind w.secret_ed dest init) _ e in
    let e2 : w' ≡ record w { draws = w.draws + 1; sent = w.sent ++ ((dest, bs) ∷ []) } = cc in
    ap World.received e2

pub ask_again_lem :
    (b : Box) (now : ℕ) (s s' : Session) (w w' : World)
    → ask_again b now s w ≡ some (s', w')
    → (s' ≡ s) × (w'.received ≡ w.received)
unfolding ask_again send_init
ask_again_lem b now s s' w w' e =
    let (w1, e1, e2) = >>=-eq-some (send_init b now s w) _ e in
    let (es, ew) = some_pair e2 in
    (sym es, ap World.received (sym ew) ∙ send_message-received b _ _ _ w w1 e1)

ratchet_lem :
    (r l : ℕ) (s : Session)
    → ratchet_of r l s ≡ ratchet
    → (r ≡ (s.remote_key_seq + 1) % 2 ^ 64) × (l ≡ s.local_key_seq)
unfolding ratchet_of
ratchet_lem r l s e = ground arith

ratchet_early_lem :
    (r l : ℕ) (s : Session)
    → ratchet_of r l s ≡ ratchet_early
    → (r ≡ (s.remote_key_seq + 1) % 2 ^ 64) × ((l + 1) % 2 ^ 64 ≡ s.local_key_seq)
unfolding ratchet_of
ratchet_early_lem r l s e = ground arith

-- After a rotation the numbers of the message that caused it stand for the current keys.
pub ratchet_of-advanced :
    (r l : ℕ) (s : Session)
    → r ≡ s.remote_key_seq
    → s.local_key_seq ≡ (l + 1) % 2 ^ 64
    → ratchet_of r l s ≡ no_ratchet
unfolding ratchet_of
ratchet_of-advanced r l s er el = ground arith

ratchet_of-left_behind :
    (r l : ℕ) (s : Session)
    → r ≡ s.remote_key_seq
    → s.local_key_seq ≡ ((l + 1) % 2 ^ 64 + 1) % 2 ^ 64
    → ratchet_of r l s ≡ unknown
unfolding ratchet_of
ratchet_of-left_behind r l s er el = ground arith

module _ (b : Box) (now : ℕ) (h : Header) where
  Spent-nonce :
      (c : Ratchet) (s : Session)
      → ratchet_of h.remote_seq h.local_seq s ≡ c
      → h.nonce ≤ nonce_of c s
      → Spent b h s
  Spent-nonce c s e le = inr (inl (rw e le))

  -- What a session is after the message was delivered.
  on_success-Spent :
      (c : Ratchet) (key : Bytes) (s : Session) (w : World)
      → ratchet_of h.remote_seq h.local_seq s ≡ c
      → Spent b h (on_success b now c h.nonce key s w).0
  unfolding on_success rotate advance_keys fix_shared nonce_of ratchet_of
  on_success-Spent no_ratchet key s w e =
      Spent-nonce no_ratchet (record s { recv_nonce = h.nonce }) e (omega arith)
  on_success-Spent ratchet key s w e =
      let (er, el) = ratchet_lem h.remote_seq h.local_seq s e in
      elim (Bool-cases (may_rotate now s)) [
        | inl rotates ↦ rw rotates (
            let s1 = (rotate b now h.nonce key (record s { next_send_nonce = h.nonce }) w).0 in
            Spent-nonce no_ratchet s1
              (ratchet_of-advanced h.remote_seq h.local_seq s1 er
                (ap (λ z. (z + 1) % 2 ^ 64) (sym el)))
              (omega arith))
        | inr stays ↦
            rw stays (Spent-nonce ratchet (record s { next_send_nonce = h.nonce }) e (omega arith))
      ]
  on_success-Spent ratchet_early key s w e =
      let (er, el) = ratchet_early_lem h.remote_seq h.local_seq s e in
      elim (Bool-cases (may_rotate now s)) [
        | inl rotates ↦ rw rotates (
            let s1 = (rotate b now h.nonce key (record s { next_recv_nonce = h.nonce }) w).0 in
            inl (
              ratchet_of-left_behind h.remote_seq h.local_seq s1 er
                (ap (λ z. (z + 1) % 2 ^ 64) (sym el))))
        | inr stays ↦
            rw stays
              (Spent-nonce ratchet_early (record s { next_recv_nonce = h.nonce }) e (omega arith))
      ]
  on_success-Spent unknown key s w e = inl e

  -- Counting bytes and setting the timer do not matter.
  Spent-counted :
      (x : ℕ) (s : Session) → Spent b h s → Spent b h (reset_timer now (record s { rx = x }))
  unfolding reset_timer ratchet_of nonce_of key_of_case
  Spent-counted x s spent =
      let c = ratchet_of h.remote_seq h.local_seq s in
      rw (nonce_of-counted c, key_of_case-counted c) spent
    where
      nonce_of-counted :
          (c : Ratchet) → nonce_of c (reset_timer now (record s { rx = x })) ≡ nonce_of c s
      nonce_of-counted no_ratchet = refl
      nonce_of-counted ratchet = refl
      nonce_of-counted ratchet_early = refl
      nonce_of-counted unknown = refl

      key_of_case-counted :
          (c : Ratchet) → key_of_case c (reset_timer now (record s { rx = x })) ≡ key_of_case c s
      key_of_case-counted no_ratchet = refl
      key_of_case-counted ratchet = refl
      key_of_case-counted ratchet_early = refl
      key_of_case-counted unknown = refl

  accept_message-Spent :
      (c : Ratchet) (unboxed : Bytes) (s s1 : Session) (w w1 : World)
      → ratchet_of h.remote_seq h.local_seq s ≡ c
      → accept_message b now c h.nonce unboxed s w ≡ some (s1, w1)
      → Spent b h s1
  unfolding accept_message
  accept_message-Spent c unboxed s s1 w w1 e r = elim (Bool-cases (ltb (length unboxed) 32)) [
    | inl short ↦ absurd cc
    | inr long ↦
        let msg = drop box_pub_size unboxed in
        let world = record w { received = w.received ++ ((s.ed, msg) ∷ []) } in
        let key = take box_pub_size unboxed in
        let (es, _) = some_pair (rw long at r) in
        let s' = (on_success b now c h.nonce key s world).0 in
        rw (sym es)
          (Spent-counted ((s'.rx + length msg) % 2 ^ 64) s' (on_success-Spent c key s world e))
  ]

  receive_known-Spent :
      (c : Ratchet) (s s1 : Session) (w w1 : World)
      → ratchet_of h.remote_seq h.local_seq s ≡ c
      → receive_known b now h c s w ≡ some (s1, w1)
      → Spent b h s1
  unfolding receive_known
  receive_known-Spent c s s1 w w1 e r = elim (Bool-cases (ltb (nonce_of c s) h.nonce)) [
    | inr stale ↦
        let (es, _) = some_pair (rw stale at r) in
        rw (sym es) (Spent-nonce c s e (ltb_false→le (nonce_of c s) h.nonce stale))
    | inl fresh ↦ elim (Option-cases (b.open_sealed h.boxed h.nonce (key_of_case c s))) [
      | inl sealed ↦
          let (es, _) = ask_again_lem b now s s1 w w1 (rw (fresh, sealed) at r) in
          rw es (inr (inr (rw e sealed)))
      | inr (unboxed, opened) ↦ accept_message-Spent c unboxed s s1 w w1 e (rw (fresh, opened) at r)
    ]
  ]

  -- A message that was handled is spent.
  pub receive_as-Spent :
      (c : Ratchet) (s s1 : Session) (w w1 : World)
      → ratchet_of h.remote_seq h.local_seq s ≡ c
      → receive_as b now h c s w ≡ some (s1, w1)
      → Spent b h s1
  unfolding receive_as
  receive_as-Spent unknown s s1 w w1 e r = rw (ask_again_lem b now s s1 w w1 r).0 (inl e)
  receive_as-Spent no_ratchet s s1 w w1 e r = receive_known-Spent no_ratchet s s1 w w1 e r
  receive_as-Spent ratchet s s1 w w1 e r = receive_known-Spent ratchet s s1 w w1 e r
  receive_as-Spent ratchet_early s s1 w w1 e r = receive_known-Spent ratchet_early s s1 w w1 e r

  receive_known_idle :
      (c : Ratchet) (s s1 : Session) (w w1 : World)
      → (h.nonce ≤ nonce_of c s) ⊎ (b.open_sealed h.boxed h.nonce (key_of_case c s) ≡ none)
      → receive_known b now h c s w ≡ some (s1, w1)
      → w1.received ≡ w.received
  unfolding receive_known
  receive_known_idle c s s1 w w1 (inl le) r =
      let (_, ew) = some_pair (rw (not_lt→ltb (nonce_of c s) h.nonce le) at r) in
      ap World.received (sym ew)
  receive_known_idle c s s1 w w1 (inr sealed) r = elim (Bool-cases (ltb (nonce_of c s) h.nonce)) [
    | inr stale ↦ let (_, ew) = some_pair (rw stale at r) in ap World.received (sym ew)
    | inl fresh ↦ (ask_again_lem b now s s1 w w1 (rw (fresh, sealed) at r)).1
  ]

-- A message that is spent is not delivered.
pub receive_as_idle :
    (b : Box) (now : ℕ) (h : Header) (c : Ratchet) (s s1 : Session) (w w1 : World)
    → ratchet_of h.remote_seq h.local_seq s ≡ c
    → Spent b h s
    → receive_as b now h c s w ≡ some (s1, w1)
    → w1.received ≡ w.received
unfolding receive_as
receive_as_idle b now h unknown s s1 w w1 e spent r = (ask_again_lem b now s s1 w w1 r).1
receive_as_idle b now h no_ratchet s s1 w w1 e spent r =
    receive_known_idle b now h no_ratchet s s1 w w1
      (elim (rw e at spent) [ inl k ↦ absurd cc | inr k ↦ k ]) r
receive_as_idle b now h ratchet s s1 w w1 e spent r =
    receive_known_idle b now h ratchet s s1 w w1
      (elim (rw e at spent) [ inl k ↦ absurd cc | inr k ↦ k ]) r
receive_as_idle b now h ratchet_early s s1 w w1 e spent r =
    receive_known_idle b now h ratchet_early s s1 w w1
      (elim (rw e at spent) [ inl k ↦ absurd cc | inr k ↦ k ]) r

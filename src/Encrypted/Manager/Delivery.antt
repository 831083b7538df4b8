-- ===== src/Encrypted/Manager/Delivery.antt =====
-- What two session managers of ironwood/encrypted/session.go do with a message once they know each
-- other.
use yggdrasil_go.Base.{
  ℕ, ◌<◌, ◌≡◌, ◌≢◌, refl, sym, ◌∙◌, arith, [], ◌∷◌, ◌++◌, some, drop, leb, Bool-cases, inl, inr,
}
use yggdrasil_go.Binary.{Bytes}
use yggdrasil_go.Map.{lookup, bytes_key}
use yggdrasil_go.Map.Laws.{is_in-lookup}
use yggdrasil_go.Encrypted.Box.{Box, BoxLaws}
use yggdrasil_go.Encrypted.Init.{SessionInit}
use yggdrasil_go.Encrypted.Session.{
  World, Session, traffic_message, traffic_bytes, handle_ack, handle_update, fix_shared,
  advance_keys, reset_timer, draw_keys,
}
use yggdrasil_go.Encrypted.Receive.{
  Ratchet, ratchet, no_ratchet, unknown, ratchet_of, key_of_case, nonce_of,
}
use yggdrasil_go.Encrypted.Receive.Replay.{ratchet_of-advanced}
use yggdrasil_go.Encrypted.Receive.Agreement.{traffic_message-delivered, ratchet_of-next}
use yggdrasil_go.Encrypted.Manager.{
  Manager, Buffer, handle_data, manager_handle_ack, session_for_init, put_session, send_buffered,
}
use yggdrasil_go.Encrypted.Manager.Steps.{Answered, handle_data-traffic}
use yggdrasil_go.Encrypted.Manager.Waiting.{Flushed, Follows}

known_ratchet : (c : Ratchet) → c ≡ ratchet → c ≢ unknown
known_ratchet c e k = cc

known_no_ratchet : (c : Ratchet) → c ≡ no_ratchet → c ≢ unknown
known_no_ratchet c e k = cc

-- How the session holds the keys of a message that was sent in the state `s` of the other end.
pub record Expects (s r : Session) : Type 0 where
  pub known : ratchet_of s.local_key_seq s.remote_key_seq r ≢ unknown
  pub key : key_of_case (ratchet_of s.local_key_seq s.remote_key_seq r) r ≡ s.send_shared
  pub fresh : nonce_of (ratchet_of s.local_key_seq s.remote_key_seq r) r < s.send_nonce

-- The other end delivers what it expects.
pub traffic-delivered :
    (b : Box) (laws : BoxLaws b) (now : ℕ) (from msg : Bytes) (ack : SessionInit) (buf : Buffer)
    (s r : Session) (m : Manager)
    → lookup (b.ed_public from) m.sessions ≡ some r
    → r.ed ≡ b.ed_public from
    → Flushed b ack buf s
    → ack.key_seq ≡ 1
    → Expects s r
    → (m' : Manager) × (handle_data b now (b.ed_public from) (traffic_message b msg s) m ≡ some m')
      × (m'.world.received ≡ m.world.received ++ ((b.ed_public from, msg) ∷ []))
unfolding put_session traffic_message traffic_bytes
traffic-delivered b laws now from msg ack buf s r m found ed f told x =
    let (r', w', delivered, received) =
      traffic_message-delivered b laws now msg s r m.world (omega (arith, f.local_seq))
        (omega (arith, f.remote_seq, told)) (omega (arith, f.nonce)) f.next_size x.known x.key
        x.fresh in
    (
      put_session (b.ed_public from) (r', w') m,
      handle_data-traffic b now (b.ed_public from) (drop 1 (traffic_message b msg s)) r r' w' m
          found delivered,
      received ∙ rw ed refl,
    )

module _ (b : Box) (laws : BoxLaws b) (i : ℕ) (init ack : SessionInit) (buf : Buffer)
    (s r : Session) (a : Answered b init ack r) (f : Flushed b ack buf s)
    (next : init.next ≡ (b.new_keys i).0) (priv : buf.next_priv ≡ (b.new_keys i).1) where
  shared_key : b.shared init.next (b.new_keys a.drawn).1 ≡ s.send_shared
  shared_key = rw (next, laws.agree i a.drawn, sym priv, sym a.told) refl ∙ sym f.key

  -- Right after its ack, the session expects the message with the keys that come next.
  pub Answered-Expects : init.key_seq ≡ 0 → Expects s r
  unfolding key_of_case nonce_of
  Answered-Expects zero_seq =
      let c = ratchet_of s.local_key_seq s.remote_key_seq r in
      let is_ratchet : c ≡ ratchet =
        ratchet_of-next s.local_key_seq s.remote_key_seq r
          (omega (arith, f.local_seq, a.remote_seq))
          (omega (arith, f.remote_seq, a.local_seq, a.told_seq)) in
      record {
        known = known_ratchet c is_ratchet;
        key = rw is_ratchet (a.key ∙ shared_key);
        fresh = rw is_ratchet (omega (arith, a.nonce, f.nonce));
      }

  -- After the ack of the other end, these keys are the current ones.
  updated-Expects :
      (now t : ℕ) (ack2 : SessionInit) (w : World)
      → Follows t buf ack2
      → ack2.current ≡ init.next
      → Expects s (handle_update b now ack2 r w).0
  unfolding key_of_case nonce_of handle_update fix_shared advance_keys reset_timer
  updated-Expects now t ack2 w follows current =
      let r' = (handle_update b now ack2 r w).0 in
      let c = ratchet_of s.local_key_seq s.remote_key_seq r' in
      let is_current : c ≡ no_ratchet =
        ratchet_of-advanced s.local_key_seq s.remote_key_seq r' (f.local_seq ∙ sym follows.key_seq)
          (omega (arith, f.remote_seq, a.local_seq, a.told_seq)) in
      record {
        known = known_no_ratchet c is_current;
        key = rw is_current (rw (current, a.private) shared_key);
        fresh = rw is_current (omega (arith, f.nonce));
      }

  -- Whether the ack is new or of the second of the init and thus ignored.
  pub handle_ack-Expects :
      (now t : ℕ) (ack2 : SessionInit) (w : World)
      → Follows t buf ack2
      → ack2.current ≡ init.next
      → init.key_seq ≡ 0
      → let (r', w') = handle_ack b now ack2 r w in
        Expects s r' × (r'.ed ≡ r.ed) × (w'.received ≡ w.received)
  unfolding handle_ack handle_update fix_shared advance_keys reset_timer draw_keys
  handle_ack-Expects now t ack2 w follows current zero_seq =
      elim (Bool-cases (leb ack2.seq r.seq)) [
        | inl old ↦ rw old (Answered-Expects zero_seq, refl, refl)
        | inr new ↦ rw new (updated-Expects now t ack2 w follows current, refl, refl)
      ]

-- An ack of a node with which there is a session.
pub manager_handle_ack-known :
    (b : Box) (now : ℕ) (key : Bytes) (ack : SessionInit) (r : Session) (m : Manager)
    → lookup key m.sessions ≡ some r
    → manager_handle_ack b now key ack m ≡ some (put_session key (handle_ack b now ack r m.world) m)
unfolding manager_handle_ack session_for_init send_buffered
manager_handle_ack-known b now key ack r m found =
    rw (found, is_in-lookup key m.sessions found, session_for_init) refl

-- ===== src/Encrypted/Manager/Contact.antt =====
-- Two session managers of ironwood/encrypted/session.go that do not know each other yet.
use yggdrasil_go.Base.{ℕ, ◌^◌, ◌≤◌, ◌<◌, ◌≡◌, ap, ◌∙◌, arith, [], ◌∷◌, ◌++◌, some, none}
use yggdrasil_go.Binary.{Bytes}
use yggdrasil_go.Map.{lookup, bytes_key}
use yggdrasil_go.Map.Laws.{lookup-insert_self}
use yggdrasil_go.Encrypted.Box.{Box, BoxLaws}
use yggdrasil_go.Encrypted.Init.{SessionInit}
use yggdrasil_go.Encrypted.Session.{Session, traffic_message, handle_ack}
use yggdrasil_go.Encrypted.Manager.{Manager, Buffer, handle_data, manager_write_to, put_session}
use yggdrasil_go.Encrypted.Manager.Steps.{
  Answered, Tells, handle_data-init, handle_data-ack, manager_handle_init-Answered,
}
use yggdrasil_go.Encrypted.Manager.Waiting.{
  Flushed, Follows, manager_write_to-new, manager_handle_ack-Flushed,
}
use yggdrasil_go.Encrypted.Manager.Delivery.{
  traffic-delivered, Answered-Expects, handle_ack-Expects, manager_handle_ack-known,
}

-- The manager has no session with the node and keeps nothing for it.
pub record Unknown (key : Bytes) (m : Manager) : Type 0 where
  pub no_session : lookup key m.sessions ≡ none
  pub no_buffer : lookup key m.buffers ≡ none

-- The keys of the manager are those of its node, and the time is after the first second of 1970.
pub record Ready (b : Box) (now : ℕ) (m : Manager) : Type 0 where
  pub box_key : m.world.secret_box ≡ b.to_box_private m.world.secret_ed
  pub after_first_second : 1000000000 ≤ now
  pub time_u64 : now < 2 ^ 64

-- The other end gets the ack of the first, and then its message.
acked-delivered :
    (b : Box) (laws : BoxLaws b) (t t3 t4 i : ℕ) (from to bs msg : Bytes) (ack ack2 : SessionInit)
    (buf : Buffer) (s r : Session) (m : Manager)
    → lookup (b.ed_public from) m.sessions ≡ some r
    → r.ed ≡ b.ed_public from
    → m.world.secret_box ≡ b.to_box_private to
    → Tells b 2 from to ack2 bs
    → Follows t buf ack2
    → Answered b buf.init ack r
    → Flushed b ack buf s
    → buf.init.next ≡ (b.new_keys i).0
    → buf.next_priv ≡ (b.new_keys i).1
    → buf.init.key_seq ≡ 0
    → (m1 : Manager) × (m2 : Manager) × (handle_data b t3 (b.ed_public from) bs m ≡ some m1)
      × (handle_data b t4 (b.ed_public from) (traffic_message b msg s) m1 ≡ some m2)
      × (m2.world.received ≡ m.world.received ++ ((b.ed_public from, msg) ∷ []))
unfolding put_session
acked-delivered b laws t t3 t4 i from to bs msg ack ack2 buf s r m found ed secret tells follows a f
      next priv zero_seq =
    let key = b.ed_public from in
    let out = handle_ack b t3 ack2 r m.world in
    let m1 = put_session key out m in
    let (expects, same_ed, same) =
      handle_ack-Expects b laws i buf.init ack buf s r a f next priv t3 t ack2 m.world follows
        follows.current zero_seq in
    let (m2, delivered, received) =
      traffic-delivered b laws t4 from msg ack buf s out.0 m1
        (lookup-insert_self key out.0 m.sessions) (same_ed ∙ ed) f a.told_seq expects in
    (
      m1,
      m2,
      handle_data-ack b t3 from to bs ack2 m tells secret
          ∙ manager_handle_ack-known b t3 key ack2 r m found,
      delivered,
      received ∙ ap (λ z. z ++ ((key, msg) ∷ [])) same,
    )

-- Two nodes that do not know each other, with clocks that are past the first second of 1970: when
-- one writes a message for the other, it sends an init; the other answers the init with an ack; on
-- the ack the first sends an ack and the message, encrypted; and the other takes this ack, and
-- delivers the message to its reader, with the sender's key. It delivers it too when it gets the
-- message without the ack.
pub first_contact :
    (b : Box) (laws : BoxLaws b) (t0 t1 t2 t3 t4 : ℕ) (msg : Bytes) (a o : Manager)
    → Ready b t0 a
    → Ready b t1 o
    → t2 < 2 ^ 64
    → Unknown (b.ed_public o.world.secret_ed) a
    → Unknown (b.ed_public a.world.secret_ed) o
    → let from = b.ed_public a.world.secret_ed in
      let to = b.ed_public o.world.secret_ed in
      (init : Bytes) × (a1 : Manager) × (ack : Bytes) × (o1 : Manager) × (ack2 : Bytes)
      × (traffic : Bytes) × (a2 : Manager) × (o2 : Manager) × (o3 : Manager) × (skipped : Manager)
      × (manager_write_to b t0 to msg a ≡ some a1)
      × (a1.world.sent ≡ a.world.sent ++ ((to, init) ∷ []))
      × (handle_data b t1 from init o ≡ some o1)
      × (o1.world.sent ≡ o.world.sent ++ ((from, ack) ∷ []))
      × (handle_data b t2 to ack a1 ≡ some a2)
      × (a2.world.sent ≡ a1.world.sent ++ ((to, ack2) ∷ (to, traffic) ∷ []))
      × (handle_data b t3 from ack2 o1 ≡ some o2)
      × (handle_data b t4 from traffic o2 ≡ some o3)
      × (o3.world.received ≡ o.world.received ++ ((from, msg) ∷ []))
      × (handle_data b t4 from traffic o1 ≡ some skipped)
      × (skipped.world.received ≡ o.world.received ++ ((from, msg) ∷ []))
first_contact b laws t0 t1 t2 t3 t4 msg a o ready_a ready_o time new_to new_from =
    let (
      init, buf, a1, i, e1, ns, nb, s1, se, sb, tells1, is_init, waiting, next, priv, zero_seq, seq,
    ) =
      manager_write_to-new b laws t0 o.world.secret_ed msg a new_to.no_session new_to.no_buffer
        ready_a.time_u64 in
    let (ack, acked, r, o1, e2, found, s2, same, box_key, tells2, is_ack, ack_seq, ed, answered) =
      manager_handle_init-Answered b laws t1 a.world.secret_ed buf.init o new_from.no_session
        new_from.no_buffer is_init (omega (arith, seq, ready_a.after_first_second))
        ready_o.time_u64 in
    let (ack2, acked2, s, a2, e3, s3, tells3, follows, flushed) =
      manager_handle_ack-Flushed b laws t2 o.world.secret_ed msg acked buf a1 ns nb waiting i next
        is_ack (omega (arith, ack_seq, ready_o.after_first_second)) time in
    let told : Tells b 2 a.world.secret_ed o.world.secret_ed acked2 ack2 = rw se at tells3 in
    let (o2, o3, e4, e5, received) =
      acked-delivered b laws t2 t3 t4 i a.world.secret_ed o.world.secret_ed ack2 msg acked acked2
        buf s r o1 found ed (box_key ∙ ready_o.box_key) told follows answered flushed next priv
        zero_seq in
    let (skipped, e6, received6) =
      traffic-delivered b laws t4 a.world.secret_ed msg acked buf s r o1 found ed flushed
        answered.told_seq
        (Answered-Expects b laws i buf.init acked buf s r answered flushed next priv zero_seq) in
    let also = ap (λ z. z ++ ((b.ed_public a.world.secret_ed, msg) ∷ [])) same in
    (
      init,
      a1,
      ack,
      o1,
      ack2,
      traffic_message b msg s,
      a2,
      o2,
      o3,
      skipped,
      e1,
      s1,
      handle_data-init b t1 a.world.secret_ed o.world.secret_ed init buf.init o tells1
            ready_o.box_key
          ∙ e2,
      s2,
      handle_data-ack b t2 o.world.secret_ed a.world.secret_ed ack acked a1 tells2
            (sb ∙ ready_a.box_key)
          ∙ e3,
      s3,
      e4,
      e5,
      received ∙ also,
      e6,
      received6 ∙ also,
    )

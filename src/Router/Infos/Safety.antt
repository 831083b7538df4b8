-- ===== src/Router/Infos/Safety.antt =====
-- The bookkeeping of what was sent to whom, and the lookups of it that end in a panic.
use yggdrasil_go.Base.{
  ℕ, ◌≡◌, ◌∙◌, sym, ap, refl, inl, inr, [], ◌∷◌, Option, none, some, Bool, true, false,
  if◌then◌else◌, ◌⊎◌, Bool-cases, Option-cases, arith,
}
use mathlib.Core.Option
use yggdrasil_go.Binary.{Bytes}
use yggdrasil_go.Crypto.{equal}
use yggdrasil_go.Crypto.Order.{equal_refl, eq_of_equal}
use yggdrasil_go.Map.{Map, SetOf, lookup, insert, delete, is_in, bytes_key}
use yggdrasil_go.Map.Laws.{
  lookup-insert, lookup-insert_self, is_in-insert, is_in-delete, is_in-lookup, lookup-is_in,
}
use yggdrasil_go.Messages.RouterAnnounce.{RouterAnnounce, get_announce}
use yggdrasil_go.Router.State.{Router, Peer, announce, init}
use yggdrasil_go.Router.Infos.Convergence.{lookup-update_self, merge-some}
use yggdrasil_go.Router.Infos.{
  accepts, info_of, update, save, forget_sent, timer_fired, mark_sent, answer_refused,
  handle_announce, same_info, reset_cache, send,
}

unfoldable pub sent_in : Bytes → Option (SetOf Bytes) → Bool
sent_in key none = false
sent_in key (some sent) = is_in key sent

pub sent_in-none : (key : Bytes) → sent_in key none ≡ false
unfolding sent_in
sent_in-none key = refl

-- Whether `key` was sent to the peer.
abbrev pub was_sent : Bytes → Bytes → Map Bytes (SetOf Bytes) → Bool
was_sent peer key m = sent_in key (lookup peer m)

-- What was sent is stored.
abbrev pub SentKnown : Router → Type 0
SentKnown r = (peer key : Bytes) → was_sent peer key r.sent ≡ true → is_in key r.infos ≡ true

lookup-forget_sent :
    (peer gone : Bytes) (m : Map Bytes (SetOf Bytes))
    → lookup peer (forget_sent gone m) ≡ Option.map (delete gone) (lookup peer m)
unfolding lookup forget_sent
lookup-forget_sent peer gone [] = refl
lookup-forget_sent peer gone ((p, sent) ∷ m) = elim (Bool-cases (equal peer p)) [
  | inl e ↦ rw e
  | inr e ↦ rw e (lookup-forget_sent peer gone m)
]

sent_in_deleted :
    (key gone : Bytes) (o : Option (SetOf Bytes))
    → sent_in key (Option.map (delete gone) o) ≡ (if equal key gone then false else sent_in key o)
unfolding sent_in
sent_in_deleted key gone none = ground arith
sent_in_deleted key gone (some sent) = is_in-delete gone key sent

was_sent-forget_sent :
    (peer key gone : Bytes) (m : Map Bytes (SetOf Bytes))
    → was_sent peer key (forget_sent gone m)
      ≡ (if equal key gone then false else was_sent peer key m)
was_sent-forget_sent peer key gone m =
    ap (sent_in key) (lookup-forget_sent peer gone m) ∙ sent_in_deleted key gone (lookup peer m)

save-SentKnown : (ann : RouterAnnounce) (r : Router) → SentKnown r → SentKnown (save ann r)
save-SentKnown ann r h peer key s =
    unfold save reset_cache in
    ground (
      arith,
      h peer key,
      was_sent-forget_sent peer key ann.key r.sent,
      is_in-insert ann.key key (info_of ann) r.infos,
    )

update-SentKnown : (ann : RouterAnnounce) (r : Router) → SentKnown r → SentKnown (update ann r).1
unfolding update
update-SentKnown ann r h = elim (Option-cases (lookup ann.key r.infos)) [
  | inl e ↦ rw (e, update) (save-SentKnown ann r h)
  | inr (info, e) ↦ elim (Bool-cases (accepts info ann)) [
    | inl t ↦ rw (e, update) (rw t (save-SentKnown ann r h))
    | inr f ↦ rw (e, update) (rw f h)
  ]
]

-- The announced key is stored after `_update`, whatever it returned.
update_stores : (ann : RouterAnnounce) (r : Router) → is_in ann.key (update ann r).1.infos ≡ true
update_stores ann r =
    let found = merge-some (lookup ann.key r.infos) ann in
    is_in-lookup ann.key _ (lookup-update_self ann r ∙ found.1)

-- A peer that has an entry in `sent` keeps it.
update_keeps_peers :
    (ann : RouterAnnounce) (peer : Bytes) (sent : SetOf Bytes) (r : Router)
    → lookup peer r.sent ≡ some sent
    → (sent' : SetOf Bytes) × (lookup peer (update ann r).1.sent ≡ some sent')
update_keeps_peers ann peer sent r h = elim (Bool-cases (update ann r).0) [
  | inl t ↦ (delete ann.key sent, accepted t)
  | inr f ↦ (sent, refused f)
]
  where
    forgotten : lookup peer (forget_sent ann.key r.sent) ≡ some (delete ann.key sent)
    forgotten = lookup-forget_sent peer ann.key r.sent ∙ ap (Option.map (delete ann.key)) h

    accepted :
        (update ann r).0 ≡ true → lookup peer (update ann r).1.sent ≡ some (delete ann.key sent)
    accepted t = unfold update save reset_cache in ground (arith, t, forgotten)

    refused : (update ann r).0 ≡ false → lookup peer (update ann r).1.sent ≡ some sent
    refused f = unfold update save reset_cache in ground (arith, f, h)

module _ (peer key : Bytes) (r : Router) {sent : SetOf Bytes}
    (h : lookup peer r.sent ≡ some sent) where
  marked : Router
  marked = record r { sent = insert peer (insert key tt sent) r.sent }

  mark_sent-some : mark_sent peer key r ≡ some marked
  unfolding mark_sent marked
  mark_sent-some = rw h

  marked-was_sent : was_sent peer key marked.sent ≡ true
  unfolding marked sent_in
  marked-was_sent =
      ap (sent_in key) (lookup-insert_self peer (insert key tt sent) r.sent)
      ∙ is_in-insert key key tt sent
      ∙ rw (equal_refl key)

  marked-same_peer :
      (key' : Bytes)
      → equal key' key ≡ false
      → sent_in key' (some (insert key tt sent)) ≡ was_sent peer key' r.sent
  unfolding sent_in
  marked-same_peer key' d = is_in-insert key key' tt sent ∙ rw (d, h)

  marked-new :
      (peer' key' : Bytes)
      → was_sent peer' key' marked.sent ≡ true
      → (equal key' key ≡ true) ⊎ (was_sent peer' key' r.sent ≡ true)
  unfolding marked
  marked-new peer' key' s = elim (Bool-cases (equal key' key)) [
    | inl e ↦ inl e
    | inr d ↦ elim (Bool-cases (equal peer' peer)) [
      | inl e ↦ inr (
          sym (
            ap (sent_in key') (lookup-insert peer peer' (insert key tt sent) r.sent ∙ rw e)
            ∙ marked-same_peer key' d
            ∙ rw (eq_of_equal peer' peer e))
          ∙ s)
      | inr f ↦ inr (
          sym (ap (sent_in key') (lookup-insert peer peer' (insert key tt sent) r.sent ∙ rw f)) ∙ s)
    ]
  ]

  marked-SentKnown : SentKnown r → is_in key r.infos ≡ true → SentKnown marked
  unfolding marked
  marked-SentKnown k stored peer' key' s = elim (marked-new peer' key' s) [
    | inl e ↦ rw (eq_of_equal key' key e) stored
    | inr old ↦ k peer' key' old
  ]

-- A branch of `_handleAnnounce` that ends without a panic, with the key marked as sent.
abbrev pub Handled : Bytes → Bytes → Option Router → Type 0
Handled peer key o = (r : Router) × (o ≡ some r) × SentKnown r × (was_sent peer key r.sent ≡ true)

marked-Handled :
    (peer key : Bytes) (r : Router) {sent : SetOf Bytes}
    → lookup peer r.sent ≡ some sent
    → SentKnown r
    → is_in key r.infos ≡ true
    → Handled peer key (mark_sent peer key r)
marked-Handled peer key r h k stored = (
  marked peer key r h,
  mark_sent-some peer key r h,
  marked-SentKnown peer key r h k stored,
  marked-was_sent peer key r h,
)

answer_refused-Handled :
    (p : Peer) (ann : RouterAnnounce) (r : Router) {sent : SetOf Bytes}
    → lookup p.key r.sent ≡ some sent
    → SentKnown r
    → is_in ann.key r.infos ≡ true
    → Handled p.key ann.key (answer_refused p ann r)
unfolding answer_refused
answer_refused-Handled p ann r h k stored =
    let (old, found) = lookup-is_in ann.key r.infos stored in
    let (r', e, k', m) = marked-Handled p.key ann.key r h k stored in
    elim (Bool-cases (same_info (info_of ann) old)) [
      | inl t ↦ (r', rw (e, found, t), k', m)
      | inr f ↦ (
        send (announce p (get_announce old ann.key)) r',
        rw (e, found, f),
        unfold send in k',
        unfold send in m,
      )
    ]

-- If all that was sent is stored, and the peer that an announcement comes from has an entry in
-- `sent`, then `_handleAnnounce` does not panic, all that was sent is stored again, and the
-- announced key counts as sent to that peer.
pub handle_announce_safe :
    (p : Peer) (ann : RouterAnnounce) (r : Router) (sent : SetOf Bytes)
    → SentKnown r
    → lookup p.key r.sent ≡ some sent
    → Handled p.key ann.key (handle_announce p ann r)
unfolding handle_announce
handle_announce_safe p ann r sent k h =
    let (sent', kept) = update_keeps_peers ann p.key sent r h in
    let known = update-SentKnown ann r k in
    let stored = update_stores ann r in
    elim (Bool-cases (update ann r).0) [
      | inl t ↦ rw t (elim (Bool-cases (equal ann.key (update ann r).1.public_key)) [
        | inl own ↦ rw own (marked-Handled p.key ann.key _ kept known stored)
        | inr f ↦ rw f (marked-Handled p.key ann.key _ kept known stored)
      ])
      | inr f ↦ rw f (answer_refused-Handled p ann _ kept known stored)
    ]

-- A timer that fires keeps all that was sent stored: what it drops, it also forgets to have sent.
pub timer_fired-SentKnown :
    (key : Bytes) (timer : ℕ) (r : Router) → SentKnown r → SentKnown (timer_fired key timer r)
unfolding timer_fired reset_cache
timer_fired-SentKnown gone timer r k peer key =
    ground
      (arith, k peer key, was_sent-forget_sent peer key gone r.sent, is_in-delete gone key r.infos)

-- A router that has just started has sent nothing.
pub init-SentKnown : (public_key : Bytes) → SentKnown (init public_key)
unfolding init lookup
init-SentKnown public_key peer key t = cc (sent_in-none key, t)

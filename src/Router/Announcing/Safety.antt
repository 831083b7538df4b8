-- ===== src/Router/Announcing/Safety.antt =====
-- `_sendAnnounces` finds all that it announces.
use yggdrasil_go.Base.{
  ℕ, ◌≡◌, refl, sym, ◌∙◌, ap, List, [], ◌∷◌, some, true, false, Bool-cases, Option-cases, inl, inr,
  if◌then◌else◌, arith, All, All-append,
}
use yggdrasil_go.Binary.{Bytes}
use yggdrasil_go.Crypto.{equal}
use yggdrasil_go.Crypto.Order.{eq_of_equal}
use yggdrasil_go.Map.{Map, SetOf, lookup, insert, get, is_in, bytes_key, number_key}
use yggdrasil_go.Map.Laws.{is_in-insert, is_in-lookup, lookup-is_in, lookup-insert, same_refl}
use yggdrasil_go.Messages.RouterAnnounce.{RouterAnnounce, get_announce}
use yggdrasil_go.Router.State.{Router, Peer, announce}
use yggdrasil_go.Router.Infos.{send}
use yggdrasil_go.Router.Infos.Safety.{SentKnown, sent_in, sent_in-none, was_sent}
use yggdrasil_go.Router.Tree.{get_ancestry}
use yggdrasil_go.Router.Tree.Ancestry.{get_ancestry_known}
use yggdrasil_go.Router.Announcing.{
  to_send, announcements, send_all, send_to_peers, announce_to, announce_loop, send_announces,
}

-- Everything in the set is stored.
abbrev IsKnown : Router → SetOf Bytes → Type 0
IsKnown r sent = (k : Bytes) → is_in k sent ≡ true → is_in k r.infos ≡ true

insert-IsKnown :
    (r : Router) (key : Bytes) (sent : SetOf Bytes)
    → is_in key r.infos ≡ true
    → IsKnown r sent
    → IsKnown r (if is_in key sent then sent else insert key tt sent)
insert-IsKnown r key sent known h k t = elim (Bool-cases (is_in key sent)) [
  | inl e ↦ h k (rw e at t)
  | inr e ↦ elim (Bool-cases (equal k key)) [
    | inl s ↦ rw (eq_of_equal k key s) known
    | inr s ↦ ground (arith, h k, is_in-insert key k tt sent, t, e, s)
  ]
]

to_send_lem :
    (r : Router) (keys : List Bytes) (sent : SetOf Bytes)
    → All (λ k. is_in k r.infos ≡ true) keys
    → IsKnown r sent
    → All (λ k. is_in k r.infos ≡ true) (to_send keys sent).0 × IsKnown r (to_send keys sent).1
unfolding to_send
to_send_lem r [] sent h known = (tt, known)
to_send_lem r (k ∷ ks) sent h known =
    let rest =
      to_send_lem r ks (if is_in k sent then sent else insert k tt sent) h.1
        (insert-IsKnown r k sent h.0 known) in
    (
      elim (Bool-cases (is_in k sent)) [
        | inl e ↦ rw e (rw e at rest.0)
        | inr e ↦ rw e (h.0, rw e at rest.0)
      ],
      rest.1,
    )

announcements_lem :
    (r : Router) (keys : List Bytes)
    → All (λ k. is_in k r.infos ≡ true) keys
    → (anns : List RouterAnnounce) × (announcements keys r ≡ some anns)
unfolding announcements
announcements_lem r [] h = ([], refl)
announcements_lem r (k ∷ ks) h =
    let (info, e) = lookup-is_in k r.infos h.0 in
    let (anns, found) = announcements_lem r ks h.1 in
    (get_announce info k ∷ anns, rw e (rw found refl))

abbrev Same : Router → Router → Type 0
Same r s = (s.sent ≡ r.sent) × (s.infos ≡ r.infos)

send_all-Same : (p : Peer) (anns : List RouterAnnounce) (r : Router) → Same r (send_all p anns r)
unfolding send_all send
send_all-Same p [] r = (refl, refl)
send_all-Same p (ann ∷ anns) r = send_all-Same p anns (send (announce p ann) r)

send_to_peers-Same :
    (ps : Map ℕ Peer) (anns : List RouterAnnounce) (r : Router) → Same r (send_to_peers ps anns r)
unfolding send_to_peers
send_to_peers-Same [] anns r = (refl, refl)
send_to_peers-Same ((i, p) ∷ ps) anns r =
    let first = send_all-Same p anns r in
    let rest = send_to_peers-Same ps anns (send_all p anns r) in
    (rest.0 ∙ first.0, rest.1 ∙ first.1)

marked-SentKnown :
    (r : Router) (peer_key : Bytes) (sent : SetOf Bytes)
    → SentKnown r
    → IsKnown r sent
    → SentKnown (record r { sent = insert peer_key sent r.sent })
marked-SentKnown r peer_key sent h known peer key t = elim (Bool-cases (equal peer peer_key)) [
  | inl e ↦
      let here : lookup peer (insert peer_key sent r.sent) ≡ some sent =
        lookup-insert peer_key peer sent r.sent ∙ rw e in
      known key (unfold sent_in in sym (ap (sent_in key) here) ∙ t)
  | inr e ↦
      let other : lookup peer (insert peer_key sent r.sent) ≡ lookup peer r.sent =
        lookup-insert peer_key peer sent r.sent ∙ rw e in
      h peer key (sym (ap (sent_in key) other) ∙ t)
]

announce_to_lem :
    (peer_key : Bytes) (sent : SetOf Bytes) (r : Router)
    → SentKnown r
    → IsKnown r sent
    → (s : Router) × (announce_to peer_key sent r ≡ some s) × SentKnown s × (s.infos ≡ r.infos)
unfolding announce_to
announce_to_lem peer_key sent r h known =
    let own =
      to_send_lem r (get_ancestry r.public_key r.infos) sent
        (get_ancestry_known r.public_key r.infos) known in
    let sent1 = (to_send (get_ancestry r.public_key r.infos) sent).1 in
    let other =
      to_send_lem r (get_ancestry peer_key r.infos) sent1 (get_ancestry_known peer_key r.infos)
        own.1 in
    let sent2 = (to_send (get_ancestry peer_key r.infos) sent1).1 in
    let (anns, e) = announcements_lem r _ (All-append _ _ _ own.0 other.0) in
    let marked = record r { sent = insert peer_key sent2 r.sent } in
    let same = send_to_peers-Same (get [] peer_key r.peers) anns marked in
    (
      send_to_peers (get [] peer_key r.peers) anns marked,
      rw e refl,
      (λ peer key. rw (same.0, same.1) (marked-SentKnown r peer_key sent2 h other.1 peer key)),
      same.1,
    )

-- As a map of Go has it, no key twice.
abbrev pub HasUniqueKeys : Map Bytes (SetOf Bytes) → Type 0
HasUniqueKeys [] = Unit {0}
HasUniqueKeys ((k, s) ∷ m) = (is_in k m ≡ false) × HasUniqueKeys m

abbrev AllKnown : Router → Map Bytes (SetOf Bytes) → Type 0
AllKnown r = All (λ (k, s). IsKnown r s)

was_sent-is_in :
    (peer key : Bytes) (m : Map Bytes (SetOf Bytes))
    → was_sent peer key m ≡ true
    → is_in peer m ≡ true
was_sent-is_in peer key m t = elim (Option-cases (lookup peer m)) [
  | inl e ↦ cc (ap (sent_in key) e, t, sent_in-none key)
  | inr (s, e) ↦ is_in-lookup peer m e
]

was_sent_cons :
    (peer key k : Bytes) (s : SetOf Bytes) (m : Map Bytes (SetOf Bytes))
    → was_sent peer key ((k, s) ∷ m) ≡ (if equal peer k then is_in key s else was_sent peer key m)
unfolding lookup sent_in
was_sent_cons peer key k s m = elim (Bool-cases (equal peer k)) [ inl e ↦ rw e | inr e ↦ rw e ]

entries_known :
    (r : Router) (m : Map Bytes (SetOf Bytes))
    → HasUniqueKeys m
    → ((peer key : Bytes) → was_sent peer key m ≡ true → is_in key r.infos ≡ true)
    → AllKnown r m
entries_known r [] u h = tt
entries_known r ((k, s) ∷ m) u h = (
  (λ key t. h k key (was_sent_cons k key k s m ∙ rw (same_refl k) t)),
  entries_known r m u.1 (λ peer key t.
      let here = was_sent-is_in peer key m t in
      let other : equal peer k ≡ false = elim (Bool-cases (equal peer k)) [
        | inl e ↦ let same = eq_of_equal peer k e in cc (here, same, u.0)
        | inr e ↦ e
      ] in
      h peer key (was_sent_cons peer key k s m ∙ rw other t)),
)

announce_loop_lem :
    (m : Map Bytes (SetOf Bytes)) (r : Router)
    → SentKnown r
    → AllKnown r m
    → (s : Router) × (announce_loop m r ≡ some s) × SentKnown s
unfolding announce_loop
announce_loop_lem [] r h known = (r, refl, h)
announce_loop_lem ((peer_key, sent) ∷ m) r h known =
    let (s, e, kept, same) = announce_to_lem peer_key sent r h known.0 in
    let (last, found, end) = announce_loop_lem m s kept (rw same known.1) in (last, rw e found, end)

-- If all that was sent is stored, `_sendAnnounces` does not panic, and all that was sent, with what
-- it has sent now, is stored again. No peer is twice among the keys of `r.sent`.
pub send_announces_safe :
    (r : Router)
    → SentKnown r
    → HasUniqueKeys r.sent
    → (s : Router) × (send_announces r ≡ some s) × SentKnown s
unfolding send_announces
send_announces_safe r h u = announce_loop_lem r.sent r h (entries_known r r.sent u h)

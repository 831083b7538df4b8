-- ===== src/Router/Neighbours/Safety.antt =====
-- Links that come up and go down, and what was sent over them.
use yggdrasil_go.Base.{
  ℕ, List, ◌≡◌, refl, sym, ◌∙◌, ap, [], ◌∷◌, none, some, true, false, Bool-cases, Option-cases, inl,
  inr, if◌then◌else◌, arith, leb, ◌==◌, length,
}
use yggdrasil_go.Binary.{Bytes}
use yggdrasil_go.Crypto.{equal}
use yggdrasil_go.Map.{Map, SetOf, lookup, insert, delete, get, is_in, bytes_key, number_key}
use yggdrasil_go.Map.Laws.{is_in_cons, lookup-is_in, lookup-insert, lookup-delete, same_refl}
use yggdrasil_go.Messages.RouterAnnounce.{get_announce}
use yggdrasil_go.Router.State.{Router, Peer, RouterPenaltyKey, announce, bloom_send}
use yggdrasil_go.Router.Infos.{send}
use yggdrasil_go.Router.Infos.Safety.{SentKnown, sent_in, sent_in-none, was_sent}
use yggdrasil_go.Router.Penalties.{
  get_decayed_penalty, add_penalty, record_disconnect, router_unknown_latency,
}
use yggdrasil_go.Router.Penalties.Bounds.{got_decayed}
use yggdrasil_go.Router.Requests.{new_req}
use yggdrasil_go.Router.Neighbours.{
  link_up, first_link, repeat_sent, ensure_request, add_peer, resend_blooms, forget_peer,
  remove_peer,
}

-- The two states have sent and stored the same.
abbrev pub Same : Router → Router → Type 0
Same r s = (s.sent ≡ r.sent) × (s.infos ≡ r.infos) × (s.peers ≡ r.peers)

Same-trans : (r s t : Router) → Same r s → Same s t → Same r t
Same-trans r s t (a, b, c) (a', b', c') = (a' ∙ a, b' ∙ b, c' ∙ c)

Same-SentKnown : (r s : Router) → Same r s → SentKnown r → SentKnown s
Same-SentKnown r s (a, b, _) h peer key = rw (a, b) (h peer key)

repeat_sent_lem :
    (p : Peer) (sent : SetOf Bytes) (r : Router)
    → ((k : Bytes) → is_in k sent ≡ true → is_in k r.infos ≡ true)
    → (s : Router) × (repeat_sent p sent r ≡ some s) × Same r s
unfolding repeat_sent
repeat_sent_lem p [] r h = (r, refl, (refl, refl, refl))
repeat_sent_lem p ((k, u) ∷ sent) r h =
    let here = h k (is_in_cons k k u sent ∙ rw (same_refl k)) in
    let (info, e) = lookup-is_in k r.infos here in
    let more : (x : Bytes) → is_in x sent ≡ true → is_in x r.infos ≡ true =
      λ x t. h x (is_in_cons x k u sent ∙ ground (arith, t)) in
    let next = send (announce p (get_announce info k)) r in
    let same : Same r next = unfold send in (refl, refl, refl) in
    let (s, found, rest) = repeat_sent_lem p sent next (rw same.1 more) in
    (s, rw e found, Same-trans r next s same rest)

empty_set : (k : Bytes) (s : SetOf Bytes) → s ≡ [] → is_in k s ≡ false
unfolding is_in lookup
empty_set k s e = rw e

pub get-none :
    {A : Type 0} (peer : Bytes) (m : Map Bytes (List A)) → lookup peer m ≡ none → get [] peer m ≡ []
unfolding get
get-none peer m e = rw (e, get)

pub get-some :
    {A : Type 0} (peer : Bytes) (m : Map Bytes (List A)) (s : List A)
    → lookup peer m ≡ some s
    → get [] peer m ≡ s
unfolding get
get-some peer m s e = rw (e, get)

sent_in_empty : (key : Bytes) → sent_in key (some []) ≡ false
unfolding sent_in is_in lookup
sent_in_empty key = refl

get-sent :
    (peer : Bytes) (m : Map Bytes (SetOf Bytes)) (k : Bytes)
    → is_in k (get [] peer m) ≡ true
    → was_sent peer k m ≡ true
get-sent peer m k t = elim (Option-cases (lookup peer m)) [
  | inl e ↦ cc (empty_set k (get [] peer m) (get-none peer m e), t)
  | inr (s, e) ↦ ap (sent_in k) e ∙ (unfold sent_in in ap (is_in k) (sym (get-some peer m s e)) ∙ t)
]

was_sent-new :
    (peer key p : Bytes) (m : Map Bytes (SetOf Bytes))
    → was_sent peer key (insert p [] m) ≡ true
    → was_sent peer key m ≡ true
was_sent-new peer key p m t = elim (Bool-cases (equal peer p)) [
  | inl e ↦
      let found : lookup peer (insert p [] m) ≡ some [] = lookup-insert p peer [] m ∙ rw e in
      cc (found, t, sent_in_empty key)
  | inr e ↦
      let other : lookup peer (insert p [] m) ≡ lookup peer m = lookup-insert p peer [] m ∙ rw e in
      sym (ap (sent_in key) other) ∙ t
]

was_sent-gone :
    (peer key p : Bytes) (m : Map Bytes (SetOf Bytes))
    → was_sent peer key (delete p m) ≡ true
    → was_sent peer key m ≡ true
was_sent-gone peer key p m t = elim (Bool-cases (equal peer p)) [
  | inl e ↦
      let found : lookup peer (delete p m) ≡ none = lookup-delete p peer m ∙ rw e in
      cc (ap (sent_in key) found, t, sent_in-none key)
  | inr e ↦
      let other : lookup peer (delete p m) ≡ lookup peer m = lookup-delete p peer m ∙ rw e in
      sym (ap (sent_in key) other) ∙ t
]

ensure_request-Same : (random : ℕ → ℕ) (p : Peer) (r : Router) → Same r (ensure_request random p r)
unfolding ensure_request new_req
ensure_request-Same random p r = elim (Bool-cases (is_in p.key r.requests)) [
  | inl e ↦ rw e (refl, refl, refl)
  | inr e ↦ rw e (refl, refl, refl)
]

get_decayed-Same :
    (now : ℕ) (key : RouterPenaltyKey) (r : Router) → Same r (get_decayed_penalty now key r).1
get_decayed-Same now key r = elim ((got_decayed now key r).1) [
  | inl e ↦ rw e (refl, refl, refl)
  | inr (_, _, e) ↦ rw e (refl, refl, refl)
]

add_penalty-Same :
    (now : ℕ) (key : RouterPenaltyKey) (c : ℕ) (r : Router) → Same r (add_penalty now key c r)
unfolding add_penalty
add_penalty-Same now key c r = elim (Bool-cases (leb c 0)) [
  | inl e ↦ rw e (refl, refl, refl)
  | inr e ↦ rw e (get_decayed-Same now key r)
]

pub record_disconnect-Same : (now : ℕ) (p : Peer) (r : Router) → Same r (record_disconnect now p r)
record_disconnect-Same now p r = elim (Option-cases (lookup p.id r.lags)) [
  | inl e ↦ unfold record_disconnect in rw (e, record_disconnect) (refl, refl, refl)
  | inr (lag, e) ↦ elim (Bool-cases (lag == router_unknown_latency)) [
    | inl u ↦ unfold record_disconnect in rw (e, record_disconnect) (rw u (refl, refl, refl))
    | inr u ↦
        unfold record_disconnect in rw (e, record_disconnect) (rw u (add_penalty-Same now _ _ r))
  ]
]

pub resend_blooms-Same : (ps : Map ℕ Peer) (r : Router) → Same r (resend_blooms ps r)
unfolding resend_blooms send
resend_blooms-Same [] r = (refl, refl, refl)
resend_blooms-Same ((i, p) ∷ ps) r = resend_blooms-Same ps (send (bloom_send p) r)

-- The states between two steps of the handlers.
abbrev linked : Peer → Router → Router
linked p r = record r {
  peers = insert p.key (insert p.id p (get [] p.key r.peers)) r.peers;
  lags = insert p.id router_unknown_latency r.lags;
}

abbrev pub cut : Peer → Router → Router
cut p r = record r {
  peers =
      if is_in p.key r.peers
      then insert p.key (delete p.id (get [] p.key r.peers)) r.peers
      else r.peers;
}

abbrev pub unlinked : ℕ → Peer → Router → Router
unlinked now p r = record_disconnect now p (cut p r)

abbrev pub dropped : ℕ → Peer → Router → Router
dropped now p r = record (unlinked now p r) {
  lags = delete p.id (unlinked now p r).lags;
  responded = delete p.id (unlinked now p r).responded;
}

link_up-SentKnown :
    (random : ℕ → ℕ) (p : Peer) (r : Router) → SentKnown r → SentKnown (link_up random p r)
unfolding link_up send
link_up-SentKnown random p r h =
    Same-SentKnown (linked p r) (ensure_request random p (linked p r))
      (ensure_request-Same random p (linked p r)) h

first_link-SentKnown : (p : Peer) (r : Router) → SentKnown r → SentKnown (first_link p r)
unfolding first_link send
first_link-SentKnown p r h peer key t = h peer key (was_sent-new peer key p.key r.sent t)

-- If all that was sent is stored, `addPeer` does not panic, and all that was sent is stored again.
pub add_peer_safe :
    (random : ℕ → ℕ) (p : Peer) (r : Router)
    → SentKnown r
    → (s : Router) × (add_peer random p r ≡ some s) × SentKnown s
unfolding add_peer
add_peer_safe random p r h = elim (Bool-cases (is_in p.key r.peers)) [
  | inl e ↦
      let known : (k : Bytes) → is_in k (get [] p.key r.sent) ≡ true → is_in k r.infos ≡ true =
        λ k t. h p.key k (get-sent p.key r.sent k t) in
      let (s, found, same) = repeat_sent_lem p (get [] p.key r.sent) r known in
      (
        link_up random p s,
        rw e (rw found),
        link_up-SentKnown random p s (Same-SentKnown r s same h),
      )
  | inr e ↦ (
    link_up random p (first_link p r),
    rw e,
    link_up-SentKnown random p (first_link p r) (first_link-SentKnown p r h),
  )
]

forget_peer-SentKnown : (p : Peer) (r : Router) → SentKnown r → SentKnown (forget_peer p r)
unfolding forget_peer send
forget_peer-SentKnown p r h peer key t = h peer key (was_sent-gone peer key p.key r.sent t)

-- `removePeer` keeps all that was sent stored.
pub remove_peer-SentKnown :
    (now : ℕ) (p : Peer) (r : Router) → SentKnown r → SentKnown (remove_peer now p r)
unfolding remove_peer
remove_peer-SentKnown now p r h =
    let ps = delete p.id (get [] p.key r.peers) in
    let kept : SentKnown (dropped now p r) =
      Same-SentKnown (cut p r) (unlinked now p r) (record_disconnect-Same now p (cut p r)) h in
    elim (Bool-cases (length ps == 0)) [
      | inl e ↦ rw e (forget_peer-SentKnown p (dropped now p r) kept)
      | inr e ↦ rw e (
          Same-SentKnown (dropped now p r) (resend_blooms ps (dropped now p r))
            (resend_blooms-Same ps (dropped now p r)) kept)
    ]

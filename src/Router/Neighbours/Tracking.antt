-- ===== src/Router/Neighbours/Tracking.antt =====
-- The links and the bookkeeping of ironwood/network/router.go when a link goes down.
use yggdrasil_go.Base.{
  ℕ, ◌≡◌, ◌≢◌, refl, sym, ◌∙◌, ap, [], ◌∷◌, none, some, true, false, not, ◌&&◌, Bool-cases,
  Option-cases, inl, inr, if◌then◌else◌, arith, ◌==◌, length, some_eq,
}
use yggdrasil_go.Binary.{Bytes}
use yggdrasil_go.Crypto.{equal}
use yggdrasil_go.Crypto.Order.{eq_of_equal}
use yggdrasil_go.Map.{Map, lookup, delete, get, is_in, bytes_key, number_key}
use yggdrasil_go.Map.Laws.{
  lookup-insert, lookup-delete, is_in-delete, is_in-lookup, is_in-none, is_in_cong,
}
use yggdrasil_go.Router.State.{Router, Peer}
use yggdrasil_go.Router.Infos.{send}
use yggdrasil_go.Router.Infos.Safety.{SentKnown}
use yggdrasil_go.Router.Neighbours.{forget_peer, remove_peer}
use yggdrasil_go.Router.Neighbours.Safety.{
  record_disconnect-Same, resend_blooms-Same, cut, dropped, get-none, get-some,
  remove_peer-SentKnown,
}

-- The nodes in `peers` are those with a link, and `sent` has an entry for each of them and no other.
pub record Tracked (r : Router) : Type 0 where
  pub linked : (k : Bytes) (ps : Map ℕ Peer) → lookup k r.peers ≡ some ps → ps ≢ []
  pub noted : (k : Bytes) → is_in k r.sent ≡ is_in k r.peers

empty : (ps : Map ℕ Peer) → (length ps == 0) ≡ true → ps ≡ []
empty [] h = refl
empty (x ∷ ps) h = absurd (ground arith)

not_empty : (ps : Map ℕ Peer) → (length ps == 0) ≡ false → ps ≢ []
not_empty [] h e = cc
not_empty (x ∷ ps) h e = cc

is_in-get :
    (k : Bytes) (m : Map Bytes (Map ℕ Peer)) (id : ℕ)
    → (length (delete id (get [] k m)) == 0) ≡ false
    → is_in k m ≡ true
unfolding delete
is_in-get k m id h = elim (Option-cases (lookup k m)) [
  | inl missing ↦ absurd (not_empty _ h (ap (delete id) (get-none k m missing)))
  | inr (ps, found) ↦ is_in-lookup k m found
]

get_cong :
    (k : Bytes) (m n : Map Bytes (Map ℕ Peer)) → lookup k m ≡ lookup k n → get [] k m ≡ get [] k n
unfolding get
get_cong k m n e = ap (λ o. elim o [ none ↦ [] | some ps ↦ ps ]) e

module _ (now : ℕ) (p : Peer) (r : Router) where
  abbrev left : Map ℕ Peer
  left = delete p.id (get [] p.key r.peers)

  cut-others :
      (key : Bytes) → equal key p.key ≡ false → lookup key (cut p r).peers ≡ lookup key r.peers
  cut-others key other = elim (Bool-cases (is_in p.key r.peers)) [
    | inl there ↦ rw there (lookup-insert p.key key left r.peers ∙ rw other)
    | inr missing ↦ rw missing refl
  ]

  -- The links of a node after the removal.
  lookup-remove_peer :
      (key : Bytes)
      → lookup key (remove_peer now p r).peers ≡ (
          if equal key p.key
          then (if length left == 0 then none else some left)
          else lookup key r.peers)
  unfolding remove_peer forget_peer send
  lookup-remove_peer key =
      let (_, _, peers) = record_disconnect-Same now p (cut p r) in
      elim (Bool-cases (length left == 0)) [
        | inl last ↦ rw (last, peers) (lookup-delete p.key key (cut p r).peers ∙ gone key)
        | inr more ↦
            let (_, _, kept) = resend_blooms-Same left (dropped now p r) in
            let there = is_in-get p.key r.peers p.id more in
            rw (more, kept, peers, there) (lookup-insert p.key key left r.peers)
      ]
    where
      gone :
          (key : Bytes)
          → (if equal key p.key then none else lookup key (cut p r).peers)
            ≡ (if equal key p.key then none else lookup key r.peers)
      gone key = elim (Bool-cases (equal key p.key)) [
        | inl same ↦ rw same refl
        | inr other ↦ rw other (cut-others key other)
      ]

  lookup-sent :
      (key : Bytes)
      → lookup key (remove_peer now p r).sent
        ≡ (if (length left == 0) && equal key p.key then none else lookup key r.sent)
  unfolding remove_peer forget_peer send
  lookup-sent key =
      let (sent, _, _) = record_disconnect-Same now p (cut p r) in
      elim (Bool-cases (length left == 0)) [
        | inl last ↦ rw (last, sent) (lookup-delete p.key key r.sent)
        | inr more ↦
            let (kept, _, _) = resend_blooms-Same left (dropped now p r) in
            rw (more, kept, sent) refl
      ]

  links-remove_peer :
      (key : Bytes)
      → get [] key (remove_peer now p r).peers
        ≡ (if equal key p.key then left else get [] key r.peers)
  links-remove_peer key = elim (Bool-cases (equal key p.key)) [
    | inr other ↦ rw other (get_cong key _ r.peers (lookup-remove_peer key ∙ rw other refl))
    | inl same ↦ elim (Bool-cases (length left == 0)) [
      | inl last ↦
          rw same
            (get-none key _ (lookup-remove_peer key ∙ rw (same, last) refl) ∙ sym (empty left last))
      | inr more ↦ rw same (get-some key _ left (lookup-remove_peer key ∙ rw (same, more) refl))
    ]
  ]

  remove_peer-linked :
      Tracked r
      → (k : Bytes) (ps : Map ℕ Peer) → lookup k (remove_peer now p r).peers ≡ some ps
      → ps ≢ []
  remove_peer-linked t k ps found = elim (Bool-cases (equal k p.key)) [
    | inr other ↦ t.linked k ps (sym (lookup-remove_peer k ∙ rw other refl) ∙ found)
    | inl same ↦ elim (Bool-cases (length left == 0)) [
      | inl last ↦
          let gone : lookup k (remove_peer now p r).peers ≡ none =
            lookup-remove_peer k ∙ rw (same, last) refl in
          absurd cc
      | inr more ↦
          let kept : lookup k (remove_peer now p r).peers ≡ some left =
            lookup-remove_peer k ∙ rw (same, more) refl in
          λ e. not_empty left more (some_eq (sym kept ∙ found) ∙ e)
    ]
  ]

  remove_peer-noted :
      Tracked r
      → (k : Bytes) → is_in k (remove_peer now p r).sent ≡ is_in k (remove_peer now p r).peers
  remove_peer-noted t k = elim (Bool-cases (equal k p.key)) [
    | inr other ↦
        is_in_cong k _ r.sent (lookup-sent k ∙ kept other)
        ∙ t.noted k
        ∙ sym (is_in_cong k _ r.peers (lookup-remove_peer k ∙ rw other refl))
    | inl same ↦ elim (Bool-cases (length left == 0)) [
      | inl last ↦
          is_in-none k _ (lookup-sent k ∙ rw (last, same) refl)
          ∙ sym (is_in-none k _ (lookup-remove_peer k ∙ rw (same, last) refl))
      | inr more ↦
          let ek : k ≡ p.key = eq_of_equal k p.key same in
          is_in_cong k _ r.sent (lookup-sent k ∙ rw more refl)
          ∙ t.noted k
          ∙ rw ek (is_in-get p.key r.peers p.id more)
          ∙ sym (is_in-lookup k _ {v = left} (lookup-remove_peer k ∙ rw (same, more) refl))
    ]
  ]
    where
      kept :
          equal k p.key ≡ false
          → (if (length left == 0) && equal k p.key then none else lookup k r.sent)
            ≡ lookup k r.sent
      kept other = ground (arith, other)

-- `removePeer` removes exactly the link that went down from the links of all nodes. It keeps the
-- nodes in `peers` those with a link, with an entry in `sent` for each of them and no other, and it
-- keeps all that was sent stored.
pub remove_peer-Tracked :
    (now : ℕ) (p : Peer) (r : Router) (key : Bytes) (id : ℕ)
    → Tracked r
    → SentKnown r
    → (is_in id (get [] key (remove_peer now p r).peers)
        ≡ (is_in id (get [] key r.peers) && not (equal key p.key && (id == p.id))))
      × Tracked (remove_peer now p r)
      × SentKnown (remove_peer now p r)
remove_peer-Tracked now p r key id t h = (
  ap (is_in id) (links-remove_peer now p r key) ∙ one_less,
  record { linked = remove_peer-linked now p r t; noted = remove_peer-noted now p r t },
  remove_peer-SentKnown now p r h,
)
  where
    one_less :
        is_in id (if equal key p.key then left now p r else get [] key r.peers)
        ≡ (is_in id (get [] key r.peers) && not (equal key p.key && (id == p.id)))
    one_less = elim (Bool-cases (equal key p.key)) [
      | inr other ↦ rw other (ground arith)
      | inl same ↦
          rw (same, eq_of_equal key p.key same)
            (ground (arith, is_in-delete p.id id (get [] p.key r.peers)))
    ]

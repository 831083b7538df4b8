-- ===== src/Blooms/Sending/Reaching.antt =====
-- Whom `_sendMulticast` of ironwood/network/bloomfilter.go reaches.
use yggdrasil_go.Base.{
  ◌≤◌, ◌≡◌, ◌≢◌, refl, sym, ap, ◌∙◌, arith, List, [], ◌∷◌, none, some, Bool, true, ltb, Bool-cases,
  inl, inr, ◌⊎◌, >>=-eq-some, All, ltb→lt, ltb_false→le,
}
use mathlib.Core.List.{Memᴰ}
use mathlib.Core.List.Memᴰ.{head, tail}
use yggdrasil_go.Binary.{Bytes}
use yggdrasil_go.Crypto.{equal}
use yggdrasil_go.Crypto.Order.{eq_of_equal, equal_ne}
use yggdrasil_go.Map.{Map, lookup, insert, bytes_key}
use yggdrasil_go.Map.Laws.{lookup-insert_self}
use yggdrasil_go.Router.State.{Router, Peer}
use yggdrasil_go.Blooms.Filters.{Filters, FiltersLaws}
use yggdrasil_go.Blooms.State.{BloomInfo, Blooms, x_key, peers_of, get_bloom_for, handle_bloom}
use yggdrasil_go.Blooms.State.Laws.{get_bloom_for_own}
use yggdrasil_go.Blooms.Sending.{best_of, wants, multicast_loop, send_multicast}

-- The best of the peers so far and the rest is one of them, with the lowest `prio`.
best_of-some :
    (best p : Peer) (ps : List Peer)
    → best_of (some best) ps ≡ some p
    → ((p ≡ best) ⊎ Memᴰ p ps) × (p.prio ≤ best.prio) × All (λ q. p.prio ≤ q.prio) ps
unfolding best_of
best_of-some best p [] e = let same : p ≡ best = cc in (inl same, rw same (omega arith), tt)
best_of-some best p (q ∷ ps) e = elim (Bool-cases (ltb q.prio best.prio)) [
  | inl lower ↦
      let (member, low, all) = best_of-some q p ps (rw lower at e) in
      let less = ltb→lt q.prio best.prio lower in
      (
        elim member [ inl same ↦ inr (head same) | inr later ↦ inr (tail later) ],
        omega arith,
        (low, all),
      )
  | inr higher ↦
      let (member, low, all) = best_of-some best p ps (rw higher at e) in
      let le = ltb_false→le q.prio best.prio higher in
      (elim member [ inl same ↦ inl same | inr later ↦ inr (tail later) ], low, (omega arith, all))
]

best_of-none :
    (p : Peer) (ps : List Peer)
    → best_of none ps ≡ some p
    → Memᴰ p ps × All (λ q. p.prio ≤ q.prio) ps
unfolding best_of
best_of-none p [] e = cc
best_of-none p (q ∷ ps) e =
    let (member, low, all) = best_of-some q p ps e in
    (elim member [ inl same ↦ head same | inr later ↦ tail later ], (low, all))

module _ {F : Type 0} (fs : Filters F) where
  multicast_loop_reaches :
      (r : Router) (xform from k : Bytes) (pbi : BloomInfo F) (m : Map Bytes (BloomInfo F))
      (ps : List Peer)
      → multicast_loop fs r xform from m ≡ some ps
      → lookup k m ≡ some pbi
      → wants fs xform from k pbi ≡ true
      → (p : Peer) × Memᴰ p ps × Memᴰ p (peers_of r k) × All (λ q. p.prio ≤ q.prio) (peers_of r k)
  unfolding multicast_loop lookup
  multicast_loop_reaches r xform from k pbi [] ps e found w = cc
  multicast_loop_reaches r xform from k pbi ((k1, pbi1) ∷ m) ps e found w =
      elim (Bool-cases (equal k k1)) [
        | inl same ↦
            let here : some pbi1 ≡ some pbi = rw same at found in
            let ek : k1 ≡ k = sym (eq_of_equal k k1 same) in
            let ep : pbi1 ≡ pbi = cc in
            let wanted : wants fs xform from k1 pbi1 ≡ true = rw (ek, ep) w in
            let (p, best, e1) = >>=-eq-some (best_of none (peers_of r k1)) _ (rw wanted at e) in
            let (rest, _, e2) = >>=-eq-some (multicast_loop fs r xform from m) _ e1 in
            let (member, lowest) = best_of-none p (peers_of r k1) best in
            let es : p ∷ rest ≡ ps = cc in
            (p, rw (sym es) (head refl), rw (sym ek) member, rw (sym ek) lowest)
        | inr other ↦ elim (Bool-cases (wants fs xform from k1 pbi1)) [
          | inr unwanted ↦
              multicast_loop_reaches r xform from k pbi m ps (rw unwanted at e) (rw other at found)
                w
          | inl wanted ↦
              let (p1, best, e1) = >>=-eq-some (best_of none (peers_of r k1)) _ (rw wanted at e) in
              let (rest, e2, e3) = >>=-eq-some (multicast_loop fs r xform from m) _ e1 in
              let (p, member, there, lowest) =
                multicast_loop_reaches r xform from k pbi m rest e2 (rw other at found) w in
              let es : p1 ∷ rest ≡ ps = cc in (p, rw (sym es) (tail member), there, lowest)
        ]
      ]

  -- A packet that is spread is sent to a peer of each node that is next to this one on the tree,
  -- other than the one that it came from, whose filter has the packet's key: to one with the lowest
  -- `prio` of the node's peers.
  pub send_multicast_reaches :
      (transform : Bytes → Bytes) (r : Router) (from to k : Bytes) (pbi : BloomInfo F)
      (bs : Blooms F) (ps : List Peer)
      → send_multicast fs transform r from to bs ≡ some ps
      → lookup k bs.infos ≡ some pbi
      → pbi.on_tree ≡ true
      → k ≢ from
      → fs.test (x_key transform to) pbi.recv ≡ true
      → (p : Peer) × Memᴰ p ps × Memᴰ p (peers_of r k) × All (λ q. p.prio ≤ q.prio) (peers_of r k)
  unfolding send_multicast wants
  send_multicast_reaches transform r from to k pbi bs ps e found on other has =
      multicast_loop_reaches r (x_key transform to) from k pbi bs.infos ps e found
        (rw (on, equal_ne k from other, has) refl)

  -- A node that has received the filter of a node next to it on the tree sends a packet for that
  -- node, which spreads from elsewhere, to one of its peers, one with the lowest `prio`.
  pub filters_lead_back :
      (laws : FiltersLaws fs) (transform : Bytes → Bytes) (r o : Router) (from : Bytes)
      (keep is_new : Bool) (b : F) (bs bs' os : Blooms F) (pbi : BloomInfo F) (ps : List Peer)
      → get_bloom_for fs transform r o.public_key keep bs ≡ some ((b, is_new), bs')
      → lookup r.public_key os.infos ≡ some pbi
      → pbi.on_tree ≡ true
      → r.public_key ≢ from
      → send_multicast fs transform o from r.public_key (handle_bloom fs r.public_key b os)
        ≡ some ps
      → (p : Peer) × Memᴰ p ps
        × Memᴰ p (peers_of o r.public_key)
        × All (λ q. p.prio ≤ q.prio) (peers_of o r.public_key)
  unfolding handle_bloom
  filters_lead_back laws transform r o from keep is_new b bs bs' os pbi ps got found on other sent =
      let pbi' = record pbi { recv = b } in
      let handled : handle_bloom fs r.public_key b os
          ≡ record os { infos = insert r.public_key pbi' os.infos } =
        rw (found, handle_bloom) refl in
      let there : lookup r.public_key (handle_bloom fs r.public_key b os).infos ≡ some pbi' =
        ap (λ z. lookup r.public_key (Blooms.infos z)) handled
        ∙ lookup-insert_self r.public_key pbi' os.infos in
      send_multicast_reaches transform o from r.public_key r.public_key pbi'
        (handle_bloom fs r.public_key b os) ps sent there on other
        (get_bloom_for_own fs laws transform r o.public_key keep is_new b bs bs' got)

-- ===== src/Blooms/Sending/Linked.antt =====
-- `_sendMulticast` of ironwood/network/bloomfilter.go while the nodes on the tree have links.
use yggdrasil_go.Base.{
  ◌≡◌, ◌≢◌, refl, List, [], ◌∷◌, none, some, Bool, true, false, ltb, if◌then◌else◌, ◌&&◌,
  Bool-cases, inl, inr, All,
}
use yggdrasil_go.Binary.{Bytes}
use yggdrasil_go.Map.{Map, bytes_key}
use yggdrasil_go.Router.State.{Router, Peer}
use yggdrasil_go.Blooms.Filters.{Filters}
use yggdrasil_go.Blooms.State.{BloomInfo, Blooms, x_key, peers_of}
use yggdrasil_go.Blooms.Sending.{best_of, wants, multicast_loop, send_multicast}

-- Each node of the map that is on the tree is one with a link.
abbrev pub HasLinks : {F : Type 0} → Blooms F → Router → Type 0
HasLinks bs r = All (λ e. e.1.on_tree ≡ true → peers_of r e.0 ≢ []) bs.infos

best_of-some_total : (best : Peer) (ps : List Peer) → (p : Peer) × (best_of (some best) ps ≡ some p)
unfolding best_of
best_of-some_total best [] = (best, refl)
best_of-some_total best (p ∷ ps) = best_of-some_total (if ltb p.prio best.prio then p else best) ps

best_of_total : (ps : List Peer) → ps ≢ [] → (p : Peer) × (best_of none ps ≡ some p)
unfolding best_of
best_of_total [] h = absurd (h refl)
best_of_total (p ∷ ps) h = best_of-some_total p ps

and_left : (a b : Bool) → (a && b) ≡ true → a ≡ true
and_left true b h = refl
and_left false b h = cc

module _ {F : Type 0} (fs : Filters F) (r : Router) (xform from : Bytes) where
  multicast_loop_total :
      (m : Map Bytes (BloomInfo F))
      → All (λ e. e.1.on_tree ≡ true → peers_of r e.0 ≢ []) m
      → (ps : List Peer) × (multicast_loop fs r xform from m ≡ some ps)
  unfolding multicast_loop wants
  multicast_loop_total [] h = ([], refl)
  multicast_loop_total ((k, pbi) ∷ m) h =
      let (rest, e) = multicast_loop_total m h.1 in
      elim (Bool-cases (wants fs xform from k pbi)) [
        | inr unwanted ↦ (rest, rw unwanted e)
        | inl wanted ↦
            let (p, best) = best_of_total (peers_of r k) (h.0 (and_left pbi.on_tree _ wanted)) in
            (p ∷ rest, rw (wanted, best, e) refl)
      ]

-- The panic of `_sendMulticast` is not reached.
pub send_multicast_total :
    {F : Type 0} (fs : Filters F) (transform : Bytes → Bytes) (r : Router) (from to : Bytes)
    (bs : Blooms F)
    → HasLinks bs r
    → (ps : List Peer) × (send_multicast fs transform r from to bs ≡ some ps)
unfolding send_multicast
send_multicast_total fs transform r from to bs h =
    multicast_loop_total fs r (x_key transform to) from bs.infos h

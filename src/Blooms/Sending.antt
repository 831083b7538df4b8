-- ===== src/Blooms/Sending.antt =====
-- ironwood/network/bloomfilter.go: to whom the filters and the packets that spread along the tree
-- are sent.
pub mod Reaching
pub mod Stale
pub mod Linked
use yggdrasil_go.Base.{
  ℕ, ◌+◌, ◌%◌, ◌^◌, List, [], ◌∷◌, ◌++◌, map, Option, none, some, Bool, true, false, ◌&&◌, ◌||◌,
  not, ltb, leb, if◌then◌else◌, ◌>>=◌,
}
use yggdrasil_go.Binary.{Bytes}
use yggdrasil_go.Crypto.{equal}
use yggdrasil_go.Map.{Map, lookup, insert, get, bytes_key, number_key}
use yggdrasil_go.Router.State.{Router, Peer}
use yggdrasil_go.Blooms.Filters.{Filters}
use yggdrasil_go.Blooms.State.{BloomInfo, Blooms, x_key, peers_of, get_bloom_for, fix_on_tree}

-- The loop over the peers of a node: the first of those with the lowest `prio`.
unfoldable pub best_of : Option Peer → List Peer → Option Peer
best_of best [] = best
best_of none (p ∷ ps) = best_of (some p) ps
best_of (some best) (p ∷ ps) = best_of (some (if ltb p.prio best.prio then p else best)) ps

module _ {F : Type 0} (fs : Filters F) where
  -- `none` is the filter of the zero value, on which the peer's writer panics.
  unfoldable pub send_bloom : Peer → Blooms F → Option (Blooms F)
  send_bloom p bs = elim (lookup p.key bs.infos) [
    | none ↦ none
    | some pbi ↦ some (record bs { sent = bs.sent ++ ((p, pbi.send) ∷ []) })
  ]

  -- The end of a round of `_sendAllBlooms`. `none` is the panic.
  unfoldable pub send_to_all :
      Router → Bytes → F → Bool → BloomInfo F → Blooms F → Option (Blooms F)
  send_to_all r k b is_new pbi bs =
      let seq = (pbi.seq + 1) % 2 ^ 16 in
      if is_new || leb 3600 seq
      then elim (lookup k r.peers) [
        | none ↦ none
        | some ps ↦ some (record {
          infos = insert k (record pbi { seq = 0 }) bs.infos;
          sent = bs.sent ++ map (λ e. (e.1, b)) ps;
        })
      ]
      else some (record bs { infos = insert k (record pbi { seq = seq }) bs.infos })

  -- A round of `_sendAllBlooms` for a node that is in the map.
  unfoldable pub send_all_round : (Bytes → Bytes) → Router → Bytes → Blooms F → Option (Blooms F)
  unfolding send_to_all
  send_all_round transform r k bs = elim (lookup k bs.infos) [
    | none ↦ some bs
    | some pbi ↦
        if not pbi.on_tree
        then some bs
        else (get_bloom_for fs transform r k (not pbi.z_dirty) bs >>= λ got.
            elim (lookup k got.1.infos) [
              | none ↦ none
              | some changed ↦ send_to_all r k got.0.0 got.0.1 changed got.1
            ])
  ]

  -- The loop of `_sendAllBlooms` over the keys that the map has.
  unfoldable pub send_all_loop :
      (Bytes → Bytes) → Router → List Bytes → Blooms F → Option (Blooms F)
  unfolding send_all_round
  send_all_loop transform r [] bs = some bs
  send_all_loop transform r (k ∷ ks) bs =
      send_all_round transform r k bs >>= λ bs'. send_all_loop transform r ks bs'

  unfoldable pub send_all_blooms : (Bytes → Bytes) → Router → Blooms F → Option (Blooms F)
  unfolding send_all_loop
  send_all_blooms transform r bs = send_all_loop transform r (map (λ e. e.0) bs.infos) bs

  unfoldable pub do_maintenance : (Bytes → Bytes) → Router → Blooms F → Option (Blooms F)
  unfolding send_all_blooms
  do_maintenance transform r bs = fix_on_tree fs r bs >>= λ bs'. send_all_blooms transform r bs'

  -- Whether `_sendMulticast` sends the packet to the node of the entry.
  unfoldable pub wants : Bytes → Bytes → Bytes → BloomInfo F → Bool
  wants xform from k pbi = pbi.on_tree && (not (equal k from) && fs.test xform pbi.recv)

  -- The loop of `_sendMulticast`: the peers that get the packet. `none` is the panic.
  unfoldable pub multicast_loop :
      Router → Bytes → Bytes → Map Bytes (BloomInfo F) → Option (List Peer)
  unfolding wants best_of
  multicast_loop r xform from [] = some []
  multicast_loop r xform from ((k, pbi) ∷ m) =
      let rest = multicast_loop r xform from m in
      if not (wants xform from k pbi)
      then rest
      else (best_of none (peers_of r k) >>= λ p. rest >>= λ ps. some (p ∷ ps))

  unfoldable pub send_multicast :
      (Bytes → Bytes) → Router → Bytes → Bytes → Blooms F → Option (List Peer)
  unfolding multicast_loop
  send_multicast transform r from to bs = multicast_loop r (x_key transform to) from bs.infos

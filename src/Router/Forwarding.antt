-- ===== src/Router/Forwarding.antt =====
-- ironwood/network/router.go: `_lookup`, which selects the peer that a packet goes to next.
pub mod Progress
use yggdrasil_go.Base.{
  ℕ, ◌+◌, ◌-◌, ◌*◌, ◌^◌, ◌%◌, List, [], ◌∷◌, ◌++◌, map, Option, none, some, Bool, true, false, ◌&&◌,
  ltb, if◌then◌else◌,
}
use yggdrasil_go.Binary.{Bytes}
use yggdrasil_go.Crypto.{equal}
use yggdrasil_go.Map.{Map}
use yggdrasil_go.Router.State.{Router, Peer}
use yggdrasil_go.Router.Penalties.{get_cost}
use yggdrasil_go.Router.Tree.{get_dist}

-- ^uint64(0)
abbrev pub max_uint64 : ℕ
max_uint64 = 2 ^ 64 - 1

-- The product of two uint64s.
abbrev times : ℕ → ℕ → ℕ
times a b = a * b % 2 ^ 64

-- The loop that collects the links to the peers that are closer than `best_dist`.
unfoldable pub candidates : List ℕ → ℕ → Map Bytes (Map ℕ Peer) → Router → List Peer × Router
candidates path best_dist [] r = ([], r)
candidates path best_dist ((k, ps) ∷ more) r =
    let (dist, r1) = get_dist path k r in
    let (rest, r2) = candidates path best_dist more r1 in
    (if ltb dist best_dist then map (λ e. e.1) ps ++ rest else rest, r2)

-- bestPeer, bestCost and bestDist.
pub record Best : Type 0 where
  pub peer : Peer
  pub cost : ℕ
  pub dist : ℕ

-- The `switch` of `_lookup` from its second case on: whether the candidate is accepted in place of
-- the best one.
unfoldable pub improves : Best → Best → Bool
improves b c =
    let one_key = equal c.peer.key b.peer.key in
    if one_key && ltb c.peer.prio b.peer.prio
    then true
    else if one_key && ltb b.peer.prio c.peer.prio
    then false
    else if ltb (times c.cost c.dist) (times b.cost b.dist)
    then true
    else if ltb (times b.cost b.dist) (times c.cost c.dist)
    then false
    else if ltb c.dist b.dist
    then true
    else if ltb b.dist c.dist
    then false
    else if ltb c.cost b.cost
    then true
    else if ltb b.cost c.cost
    then false
    else ltb c.peer.order b.peer.order

unfoldable pub accept : Option Best → Best → Best
accept none c = c
accept (some b) c = if improves b c then c else b

-- The loop over the candidates.
unfoldable pub choose : ℕ → List ℕ → List Peer → Option Best → Router → Option Best × Router
choose now path [] best r = (best, r)
choose now path (p ∷ ps) best r =
    let (dist, r1) = get_dist path p.key r in
    let (cost, r2) = get_cost now p r1 in
    choose now path ps (some (accept best (record { peer = p; cost = cost; dist = dist }))) r2

-- The two loops.
unfoldable pub best_peer : ℕ → List ℕ → ℕ → Router → Option Peer × Router
best_peer now path best_dist r =
    let (ps, r1) = candidates path best_dist r.peers r in
    let (best, r2) = choose now path ps none r1 in
    (elim best [ none ↦ none | some b ↦ some b.peer ], r2)

-- `_lookup`: `none` as the watermark is nil. The peer, `*watermark` and the state.
unfoldable pub tree_lookup : ℕ → List ℕ → Option ℕ → Router → Option Peer × (Option ℕ × Router)
tree_lookup now path none r = let (p, r1) = best_peer now path max_uint64 r in (p, (none, r1))
tree_lookup now path (some watermark) r =
    let (dist, r1) = get_dist path r.public_key r in
    let (p, r2) = best_peer now path dist r1 in
    if ltb dist watermark then (p, (some dist, r2)) else (none, (some watermark, r1))

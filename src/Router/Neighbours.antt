-- ===== src/Router/Neighbours.antt =====
-- ironwood/network/router.go: `addPeer` and `removePeer`, run for each link that comes up or goes
-- down. `none` is a panic.
pub mod Safety
pub mod Tracking
use yggdrasil_go.Base.{
  ℕ, List, [], ◌∷◌, Option, none, some, Bool, true, false, if◌then◌else◌, ◌>>=◌, length, ◌==◌,
}
use yggdrasil_go.Binary.{Bytes}
use yggdrasil_go.Map.{Map, SetOf, lookup, insert, delete, get, is_in, bytes_key, number_key}
use yggdrasil_go.Messages.RouterAnnounce.{get_announce}
use yggdrasil_go.Router.State.{Router, Peer, announce, sig_req, bloom_add, bloom_remove, bloom_send}
use yggdrasil_go.Router.Infos.{send}
use yggdrasil_go.Router.Penalties.{router_unknown_latency, record_disconnect}
use yggdrasil_go.Router.Requests.{new_req}

-- The branch for a node with no other link.
unfoldable pub first_link : Peer → Router → Router
first_link p r = send (bloom_add p.key) (record r {
  peers = insert p.key [] r.peers;
  sent = insert p.key [] r.sent;
  ports = insert p.port p.key r.ports;
})

-- The branch for one more link to a node: what was sent to the node is sent again.
unfoldable pub repeat_sent : Peer → SetOf Bytes → Router → Option Router
repeat_sent p [] r = some r
repeat_sent p ((k, u) ∷ sent) r = do
  info ← lookup k r.infos
  repeat_sent p sent (send (announce p (get_announce info k)) r)

-- `r.requests[p.key]`, made where there is none.
unfoldable pub ensure_request : (ℕ → ℕ) → Peer → Router → Router
ensure_request random p r =
    let (req, r1) = new_req random r in
    if is_in p.key r.requests then r else record r1 { requests = insert p.key req r1.requests }

-- What both branches go on with.
unfoldable pub link_up : (ℕ → ℕ) → Peer → Router → Router
link_up random p r =
    let r2 = record r {
      peers = insert p.key (insert p.id p (get [] p.key r.peers)) r.peers;
      lags = insert p.id router_unknown_latency r.lags;
    } in
    let r3 = ensure_request random p r2 in
    let r4 = record r3 { responded = delete p.id r3.responded } in
    let req = get (record { seq = 0; nonce = 0 }) p.key r4.requests in
    send (bloom_send p) (send (sig_req p req) r4)

unfoldable pub add_peer : (ℕ → ℕ) → Peer → Router → Option Router
add_peer random p r =
    if is_in p.key r.peers
    then (repeat_sent p (get [] p.key r.sent) r >>= λ r1. some (link_up random p r1))
    else some (link_up random p (first_link p r))

-- The loop over the links that are left.
unfoldable pub resend_blooms : Map ℕ Peer → Router → Router
resend_blooms [] r = r
resend_blooms ((i, p) ∷ ps) r = resend_blooms ps (send (bloom_send p) r)

-- The branch where the last link to the node is gone.
unfoldable pub forget_peer : Peer → Router → Router
forget_peer p r = send (bloom_remove p.key) (record r {
  peers = delete p.key r.peers;
  sent = delete p.key r.sent;
  ports = delete p.port r.ports;
  requests = delete p.key r.requests;
  responses = delete p.key r.responses;
  res_seqs = delete p.key r.res_seqs;
  ancs = delete p.key r.ancs;
  cache = delete p.key r.cache;
})

-- `ps` is the map in `r.peers`: what is deleted from the one is gone from the other.
unfoldable pub remove_peer : ℕ → Peer → Router → Router
remove_peer now p r =
    let ps = delete p.id (get [] p.key r.peers) in
    let peers' = if is_in p.key r.peers then insert p.key ps r.peers else r.peers in
    let r1 = record_disconnect now p (record r { peers = peers' }) in
    let r2 = record r1 { lags = delete p.id r1.lags; responded = delete p.id r1.responded } in
    if length ps == 0 then forget_peer p r2 else resend_blooms ps r2

-- ===== src/Router/Announcing.antt =====
-- ironwood/network/router.go: `_sendAnnounces`, which tells each peer what it does not know of the
-- own ancestry and of its own, and `_updateAncestries`. `none` is a panic.
pub mod Safety
use yggdrasil_go.Base.{
  ℕ, List, [], ◌∷◌, ◌++◌, Option, none, some, Bool, true, false, not, if◌then◌else◌, ◌>>=◌, length,
  ◌==◌, ◌&&◌,
}
use yggdrasil_go.Binary.{Bytes}
use yggdrasil_go.Crypto.{equal}
use yggdrasil_go.Map.{Map, SetOf, lookup, insert, get, is_in, bytes_key, number_key}
use yggdrasil_go.Messages.RouterAnnounce.{RouterAnnounce, get_announce}
use yggdrasil_go.Router.State.{Router, Peer, announce}
use yggdrasil_go.Router.Infos.{send}
use yggdrasil_go.Router.Tree.{get_ancestry}

-- One of the loops over an ancestry: what is to be sent, and the marks in `sent`.
unfoldable pub to_send : List Bytes → SetOf Bytes → List Bytes × SetOf Bytes
to_send [] sent = ([], sent)
to_send (k ∷ ks) sent =
    let (more, marked) = to_send ks (if is_in k sent then sent else insert k tt sent) in
    (if is_in k sent then more else k ∷ more, marked)

-- The loop that prepares the announcements.
unfoldable pub announcements : List Bytes → Router → Option (List RouterAnnounce)
announcements [] r = some []
announcements (k ∷ ks) r = do
  info ← lookup k r.infos
  anns ← announcements ks r
  some (get_announce info k ∷ anns)

unfoldable pub send_all : Peer → List RouterAnnounce → Router → Router
send_all p [] r = r
send_all p (ann ∷ anns) r = send_all p anns (send (announce p ann) r)

unfoldable pub send_to_peers : Map ℕ Peer → List RouterAnnounce → Router → Router
send_to_peers [] anns r = r
send_to_peers ((i, p) ∷ ps) anns r = send_to_peers ps anns (send_all p anns r)

-- The body of the loop over `r.sent`.
unfoldable pub announce_to : Bytes → SetOf Bytes → Router → Option Router
announce_to peer_key sent r =
    let (own, sent1) = to_send (get_ancestry r.public_key r.infos) sent in
    let (other, sent2) = to_send (get_ancestry peer_key r.infos) sent1 in
    announcements (own ++ other) r >>= λ anns. some (
      send_to_peers (get [] peer_key r.peers) anns
        (record r { sent = insert peer_key sent2 r.sent }))

unfoldable pub announce_loop : Map Bytes (SetOf Bytes) → Router → Option Router
announce_loop [] r = some r
announce_loop ((peer_key, sent) ∷ more) r = announce_to peer_key sent r >>= announce_loop more

unfoldable pub send_announces : Router → Option Router
send_announces r = announce_loop r.sent r

-- Whether two ancestries of one length are the same.
unfoldable pub same_keys : List Bytes → List Bytes → Bool
same_keys [] old = true
same_keys (k ∷ ks) [] = false
same_keys (k ∷ ks) (o ∷ old) = let rest = same_keys ks old in if equal k o then rest else false

-- `_updateAncestries`, by a loop over the peers.
unfoldable pub update_ancestries_loop : Map Bytes (Map ℕ Peer) → Router → Router
update_ancestries_loop [] r = r
update_ancestries_loop ((pkey, ps) ∷ more) r =
    let anc = get_ancestry pkey r.infos in
    let old = get [] pkey r.ancs in
    let unchanged = (length anc == length old) && same_keys anc old in
    update_ancestries_loop more
      (if unchanged then r else record r { ancs = insert pkey anc r.ancs })

unfoldable pub update_ancestries : Router → Router
update_ancestries r = update_ancestries_loop r.peers r

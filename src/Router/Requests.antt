-- ===== src/Router/Requests.antt =====
-- The part of ironwood/network/router.go that asks peers to sign for the own place in the tree and
-- uses what they sign: `_newReq`, `_becomeRoot`, `_handleRequest`, `_handleResponse`,
-- `_useResponse`, `_clearReqs` and `_sendReqs`. `random` is what crypto/rand gives at each call,
-- as a uint64, `sign_with` signs with the private key, and `verify` takes a key, the signed bytes
-- and a signature. `none` is a panic.
pub mod Rooting
pub mod Responses
use yggdrasil_go.Base.{
  ℕ, ◌+◌, ◌*◌, ◌/◌, ◌%◌, ◌^◌, min, List, [], ◌∷◌, Option, none, some, Bool, true, false, not, ◌&&◌,
  ◌==◌, if◌then◌else◌, ◌>>=◌, ◌>>◌, require, replicate,
}
use yggdrasil_go.Binary.{Bytes}
use yggdrasil_go.Map.{Map, lookup, insert, delete, get, is_in, bytes_key, number_key}
use yggdrasil_go.Messages.RouterSigReq.{RouterSigReq}
use yggdrasil_go.Messages.RouterSigRes.{RouterSigRes}
use yggdrasil_go.Messages.RouterSigRes
use yggdrasil_go.Messages.RouterAnnounce.{RouterAnnounce, RouterInfo, get_announce}
use yggdrasil_go.Messages.RouterAnnounce
use yggdrasil_go.Router.State.{Router, Peer, sig_req, sig_res}
use yggdrasil_go.Router.Infos.{update, send}
use yggdrasil_go.Router.Penalties.{router_unknown_latency, penalize_missed_responses}

-- `r.infos[r.core.crypto.publicKey].seq`
unfoldable pub own_seq : Router → ℕ
own_seq r = elim (lookup r.public_key r.infos) [ none ↦ 0 | some info ↦ info.seq ]

unfoldable pub new_req : (ℕ → ℕ) → Router → RouterSigReq × Router
new_req random r = (
  record { seq = (own_seq r + 1) % 2 ^ 64; nonce = random r.draws },
  record r { draws = r.draws + 1 },
)

-- The signature before it is made.
abbrev no_sig : Bytes
no_sig = replicate 64 0

-- `req` with the port, signed for the node by its parent.
unfoldable pub sign_res : (Bytes → Bytes) → Bytes → Bytes → RouterSigReq → ℕ → Option RouterSigRes
sign_res sign_with node parent req port = do
  bs ← RouterSigRes.bytes_for_sig node parent (record { req = req; port = port; psig = no_sig })
  some (record { req = req; port = port; psig = sign_with bs })

unfoldable pub become_root :
    (ℕ → ℕ) → (Bytes → Bytes) → (Bytes → Bytes → Bytes → Bool) → Router → Option (Bool × Router)
become_root random sign_with verify r =
    let (req, r1) = new_req random r in
    sign_res sign_with r.public_key r.public_key req 0 >>= λ res.
    let ann : RouterAnnounce = record {
      key = r.public_key;
      parent = r.public_key;
      res = res;
      sig = res.psig;
    } in
    RouterAnnounce.check verify ann >>= λ ok. require ok >> some (update ann r1)

unfoldable pub handle_request : (Bytes → Bytes) → Peer → RouterSigReq → Router → Option Router
handle_request sign_with p req r = do
  res ← sign_res sign_with p.key r.public_key req p.port
  some (send (sig_res p res) r)

unfoldable pub same_req : RouterSigReq → RouterSigReq → Bool
same_req a b = (a.seq == b.seq) && (a.nonce == b.nonce)

-- `r.requests[p.key] == res.routerSigReq`
unfoldable pub answers : Peer → RouterSigRes → Router → Bool
answers p res r = same_req (get (record { seq = 0; nonce = 0 }) p.key r.requests) res.req

unfoldable pub smoothed : ℕ → ℕ → ℕ
smoothed lag rtt =
    if lag == router_unknown_latency then rtt * 2 else lag * 7 / 8 + min rtt (lag * 2) / 8

unfoldable pub handle_response : Peer → RouterSigRes → ℕ → Router → Router
handle_response p res rtt r =
    let stored = record r {
      res_seq_ctr = r.res_seq_ctr + 1;
      res_seqs = insert p.key (r.res_seq_ctr + 1) r.res_seqs;
      responses = insert p.key res r.responses;
    } in
    let r1 = if not (is_in p.key r.responses) && answers p res r then stored else r in
    let measured = record r1 {
      responded = insert p.id tt r1.responded;
      lags = insert p.id (smoothed (get 0 p.id r1.lags) rtt) r1.lags;
    } in
    if not (is_in p.id r1.responded) && answers p res r1 then measured else r1

unfoldable pub use_response :
    (Bytes → Bytes) → Bytes → RouterSigRes → Router → Option (Bool × Router)
use_response sign_with peer_key res r = do
  bs ← RouterSigRes.bytes_for_sig r.public_key peer_key res
  let info : RouterInfo = record { parent = peer_key; res = res; sig = sign_with bs }
  some (update (get_announce info r.public_key) r)

unfoldable pub clear_reqs : Router → Router
clear_reqs r = record r { requests = []; responses = []; res_seqs = []; res_seq_ctr = 0 }

-- The inner loop of `_sendReqs`.
unfoldable pub ask_peers : RouterSigReq → Map ℕ Peer → Router → Router
ask_peers req [] r = r
ask_peers req ((i, p) ∷ ps) r =
    ask_peers req ps (send (sig_req p req) (record r { responded = delete p.id r.responded }))

unfoldable pub ask_all : (ℕ → ℕ) → Map Bytes (Map ℕ Peer) → Router → Router
ask_all random [] r = r
ask_all random ((pk, ps) ∷ more) r =
    let (req, r1) = new_req random r in
    ask_all random more (ask_peers req ps (record r1 { requests = insert pk req r1.requests }))

unfoldable pub send_reqs : (ℕ → ℕ) → ℕ → Router → Router
send_reqs random now r = ask_all random r.peers (clear_reqs (penalize_missed_responses now r))

-- ===== src/Tests/Data.antt =====
-- Keys, signatures and peers for the tests.
use yggdrasil_go.Base.{ℕ, [], ◌∷◌, replicate, false}
use yggdrasil_go.Binary.{Bytes}
use yggdrasil_go.Messages.RouterSigReq.{RouterSigReq}
use yggdrasil_go.Messages.RouterSigRes.{RouterSigRes}
use yggdrasil_go.Messages.RouterAnnounce.{RouterAnnounce}
use yggdrasil_go.Router.State.{Router, Peer}

-- A public key that begins with the byte.
abbrev pub key_of : ℕ → Bytes
key_of n = n ∷ replicate 31 7

abbrev pub sig_of : ℕ → Bytes
sig_of n = n ∷ replicate 63 9

abbrev pub request : ℕ → RouterSigReq
request seq = record { seq = seq; nonce = 300 }

abbrev pub response : ℕ → ℕ → RouterSigRes
response seq port = record { req = request seq; port = port; psig = sig_of 1 }

-- Node `n` announces `parent`.
abbrev pub announcement : ℕ → ℕ → ℕ → RouterAnnounce
announcement n parent seq = record {
  key = key_of n;
  parent = key_of parent;
  res = response seq 5;
  sig = sig_of 2;
}

abbrev pub peer_of : ℕ → Peer
peer_of n = record {
  id = n;
  key = key_of n;
  port = n;
  prio = 0;
  order = n;
  protocol = 116 ∷ 99 ∷ 112 ∷ [];
}

-- Node 1 with one peer, node 2, whose lag is 300 ms, and nothing stored.
abbrev pub small_router : Router
small_router = record {
  public_key = key_of 1;
  peers = (key_of 2, (2, peer_of 2) ∷ []) ∷ [];
  sent = (key_of 2, []) ∷ [];
  ports = (2, key_of 2) ∷ [];
  infos = [];
  timers = [];
  ancs = [];
  cache = [];
  lags = (2, 300000000) ∷ [];
  penalties = [];
  requests = [];
  responses = [];
  responded = [];
  res_seqs = [];
  res_seq_ctr = 0;
  refresh = false;
  do_root1 = false;
  do_root2 = false;
  next_timer = 1;
  draws = 0;
  sends = [];
}

-- ===== src/Router/State.antt =====
-- The state of the router, and the parts of a peer that it reads.
use yggdrasil_go.Base.{ℕ, ◌≡◌, ◌↔◌, List, Bool, true, ◌&&◌, arith, [], false}
use yggdrasil_go.Binary.{Bytes}
use yggdrasil_go.Crypto.{equal}
use yggdrasil_go.Crypto.Order.{equal_refl, eq_of_equal}
use yggdrasil_go.Map.{Key, Map, SetOf}
use yggdrasil_go.Messages.RouterSigReq.{RouterSigReq}
use yggdrasil_go.Messages.RouterSigRes.{RouterSigRes}
use yggdrasil_go.Messages.RouterAnnounce.{RouterAnnounce, RouterInfo}

-- A link to a node. `id` stands for the pointer `*peer`, which keys maps.
pub record Peer : Type 0 where
  pub id : ℕ
  pub key : Bytes
  pub port : ℕ
  pub prio : ℕ
  pub order : ℕ
  pub protocol : Bytes

pub record RouterPenaltyKey : Type 0 where
  pub key : Bytes
  pub protocol : Bytes

pub record RouterPenaltyEntry : Type 0 where
  pub penalty_ms : ℕ
  pub recorded_at : ℕ

abbrev pub same_penalty_key : RouterPenaltyKey → RouterPenaltyKey → Bool
same_penalty_key a b = equal a.key b.key && equal a.protocol b.protocol

pub same_penalty_key_iff : (a b : RouterPenaltyKey) → (same_penalty_key a b ≡ true) ↔ (a ≡ b)
same_penalty_key_iff a b = (there, λ e. rw e (cc (equal_refl b.key, equal_refl b.protocol)))
  where
    there : same_penalty_key a b ≡ true → a ≡ b
    there h = ground (arith, eq_of_equal a.key b.key, eq_of_equal a.protocol b.protocol)

instance abbrev pub penalty_key : Key RouterPenaltyKey
penalty_key = record { same = same_penalty_key; same_iff = same_penalty_key_iff }

-- What the router hands to a peer, and its calls of the Bloom filters, which keep their own state:
-- `_addInfo`, `_removeInfo`, `_sendBloom` and `_doMaintenance`.
pub data Send : Type 0 where
  announce : Peer → RouterAnnounce → Send
  sig_req : Peer → RouterSigReq → Send
  sig_res : Peer → RouterSigRes → Send
  bloom_add : Bytes → Send
  bloom_remove : Bytes → Send
  bloom_send : Peer → Send
  bloom_maintenance : Send

-- Times and durations are in nanoseconds. A timer is a number, `next_timer` the one that
-- time.AfterFunc gives next. `draws` counts the calls of crypto/rand, and `sends` is what was sent,
-- oldest first.
pub record Router : Type 0 where
  pub public_key : Bytes
  pub peers : Map Bytes (Map ℕ Peer)
  pub sent : Map Bytes (SetOf Bytes)
  pub ports : Map ℕ Bytes
  pub infos : Map Bytes RouterInfo
  pub timers : Map Bytes ℕ
  pub ancs : Map Bytes (List Bytes)
  pub cache : Map Bytes (List ℕ)
  pub lags : Map ℕ ℕ
  pub penalties : Map RouterPenaltyKey RouterPenaltyEntry
  pub requests : Map Bytes RouterSigReq
  pub responses : Map Bytes RouterSigRes
  pub responded : SetOf ℕ
  pub res_seqs : Map Bytes ℕ
  pub res_seq_ctr : ℕ
  pub refresh : Bool
  pub do_root1 : Bool
  pub do_root2 : Bool
  pub next_timer : ℕ
  pub draws : ℕ
  pub sends : List Send

-- The state that `init` leaves: every map empty, and the node due to become a root. The first
-- `_doMaintenance` runs after it.
unfoldable pub init : Bytes → Router
init public_key = record {
  public_key = public_key;
  peers = [];
  sent = [];
  ports = [];
  infos = [];
  timers = [];
  ancs = [];
  cache = [];
  lags = [];
  penalties = [];
  requests = [];
  responses = [];
  responded = [];
  res_seqs = [];
  res_seq_ctr = 0;
  refresh = false;
  do_root1 = false;
  do_root2 = true;
  next_timer = 1;
  draws = 0;
  sends = [];
}

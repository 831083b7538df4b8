-- ===== src/Router/Penalties/Recording.antt =====
-- What recording a penalty does: disconnects and missed answers, and the cost of a peer.
use yggdrasil_go.Base.{
  ℕ, ◌+◌, ◌-◌, ◌*◌, ◌/◌, ◌%◌, ◌^◌, ◌≤◌, ◌<◌, ◌≡◌, ◌≢◌, sym, ◌∙◌, min, max, inl, inr, [], ◌∷◌, some,
  Option-cases, Bool-cases, arith, ◌==◌, if◌then◌else◌, ==_ne,
}
use native.Mathlib.Nat.{div-le_self}
use yggdrasil_go.Binary.{Bytes}
use yggdrasil_go.Map.{Map, lookup, get, is_in, bytes_key, number_key}
use yggdrasil_go.Router.State.{Router, Peer, RouterPenaltyKey, penalty_key}
use yggdrasil_go.Router.Penalties.{
  get_decayed_penalty, penalty_key_for_peer, add_penalty, get_cost, record_disconnect,
  penalize_peer, penalize_peers, penalize_loop, penalize_missed_responses, max_penalty,
  milliseconds, router_unknown_latency, min_disconnect_penalty, penalty_half_life,
}
use yggdrasil_go.Router.Penalties.Bounds.{
  IsBounded, worth_of, worth_of-le, worth_of-insert_self, worth_of-insert_ne, got_worth,
  get_decayed_penalty_silent, get_decayed_penalty-IsBounded, add_penalty-IsBounded, add_penalty_lem,
  capped-min,
}

record_disconnect-IsBounded :
    (now : ℕ) (p : Peer) (r : Router)
    → IsBounded r.penalties
    → IsBounded (record_disconnect now p r).penalties
record_disconnect-IsBounded now p r b = elim (Option-cases (lookup p.id r.lags)) [
  | inl e ↦ unfold record_disconnect in rw (e, record_disconnect) b
  | inr (lag, e) ↦ elim (Bool-cases (lag == router_unknown_latency)) [
    | inl u ↦ unfold record_disconnect in rw (e, record_disconnect) (rw u b)
    | inr u ↦
        unfold record_disconnect in
        rw (e, record_disconnect) (rw u (add_penalty-IsBounded now _ _ r b))
  ]
]

penalize_peer-IsBounded :
    (now : ℕ) (p : Peer) (r : Router)
    → IsBounded r.penalties
    → IsBounded (penalize_peer now p r).penalties
unfolding penalize_peer
penalize_peer-IsBounded now p r b = elim (Bool-cases (is_in p.id r.responded)) [
  | inl e ↦ rw e b
  | inr e ↦ elim (Bool-cases (get 0 p.id r.lags == router_unknown_latency)) [
    | inl u ↦ rw e (rw u b)
    | inr u ↦ rw e (rw u (add_penalty-IsBounded now _ _ r b))
  ]
]

penalize_peers-IsBounded :
    (now : ℕ) (ps : Map ℕ Peer) (r : Router)
    → IsBounded r.penalties
    → IsBounded (penalize_peers now ps r).penalties
unfolding penalize_peers
penalize_peers-IsBounded now [] r b = b
penalize_peers-IsBounded now ((i, p) ∷ ps) r b =
    penalize_peers-IsBounded now ps (penalize_peer now p r) (penalize_peer-IsBounded now p r b)

penalize_loop-IsBounded :
    (now : ℕ) (m : Map Bytes (Map ℕ Peer)) (r : Router)
    → IsBounded r.penalties
    → IsBounded (penalize_loop now m r).penalties
unfolding penalize_loop
penalize_loop-IsBounded now [] r b = b
penalize_loop-IsBounded now ((pk, ps) ∷ m) r b =
    penalize_loop-IsBounded now m (if is_in pk r.requests then penalize_peers now ps r else r)
      (elim (Bool-cases (is_in pk r.requests)) [
        | inl e ↦ rw e (penalize_peers-IsBounded now ps r b)
        | inr e ↦ rw e b
      ])

-- If no stored penalty is above `maxPenalty`, none is after a reading, after a penalty was added,
-- after a disconnect was recorded, and after a round in which answers were missed.
pub penalties-IsBounded :
    (now component : ℕ) (key : RouterPenaltyKey) (p : Peer) (r : Router)
    → IsBounded r.penalties
    → IsBounded (get_decayed_penalty now key r).1.penalties
      × IsBounded (add_penalty now key component r).penalties
      × IsBounded (record_disconnect now p r).penalties
      × IsBounded (penalize_missed_responses now r).penalties
penalties-IsBounded now component key p r b = (
  get_decayed_penalty-IsBounded now key r b,
  add_penalty-IsBounded now key component r b,
  record_disconnect-IsBounded now p r b,
  unfold penalize_missed_responses in penalize_loop-IsBounded now r.peers r b,
)

-- The product that is divided in `_getDecayedPenalty` fits an int64.
pub interpolate_fits :
    (penalty_ms elapsed_ms : ℕ)
    → penalty_ms ≤ max_penalty
    → penalty_ms
        / 2 ^ (elapsed_ms / penalty_half_life)
        * (2 * penalty_half_life - elapsed_ms % penalty_half_life)
      < 2 ^ 63
interpolate_fits p a h =
    let q : p / 2 ^ (a / 300000) ≤ p = div-le_self p (2 ^ (a / 300000)) in
    let m : p / 2 ^ (a / 300000) * (600000 - a % 300000) ≤ 30000 * 600000 = grind arith in
    omega arith

-- The cost of a peer is never 0, and it is at most its lag in milliseconds and `maxPenalty`, or 1,
-- if no stored penalty is above `maxPenalty`.
pub get_cost_bounds :
    (now : ℕ) (p : Peer) (r : Router)
    → IsBounded r.penalties
    → (1 ≤ (get_cost now p r).0)
      × ((get_cost now p r).0 ≤ max 1 (milliseconds (get 0 p.id r.lags) + max_penalty))
unfolding get_cost
get_cost_bounds now p r b =
    let key = penalty_key_for_peer p in
    ground (arith, got_worth now key r, worth_of-le now key r.penalties b)

add_penalty_adds :
    (now : ℕ) (key : RouterPenaltyKey) (component : ℕ) (r : Router)
    → 0 < component
    → (get_decayed_penalty now key (add_penalty now key component r)).0
      ≡ min max_penalty ((get_decayed_penalty now key r).0 + component)
add_penalty_adds now key c r h =
    rw (add_penalty_lem now key c r h, got_worth now key r)
      (got_worth now key _
        ∙ worth_of-insert_self now _ key _
            (omega (arith, capped-min (worth_of now key r.penalties + c)))
        ∙ capped-min _)

add_penalty_others :
    (now : ℕ) (key key' : RouterPenaltyKey) (component : ℕ) (r : Router)
    → 0 < component
    → key' ≢ key
    → (get_decayed_penalty now key' (add_penalty now key component r)).0
      ≡ (get_decayed_penalty now key' r).0
add_penalty_others now key key' c r h other = rw (add_penalty_lem now key c r h) (
    got_worth now key' _
    ∙ worth_of-insert_ne now key key' _ _ other
    ∙ sym (got_worth now key' (get_decayed_penalty now key r).1)
    ∙ get_decayed_penalty_silent now now key key' r (omega arith))

-- A disconnect of a peer whose lag is known adds the lag, but `minDisconnectPenalty` at least, to
-- the penalty of its key and protocol, up to `maxPenalty`; every other penalty stays as it was.
pub record_disconnect_adds :
    (now lag : ℕ) (p : Peer) (r : Router)
    → lookup p.id r.lags ≡ some lag
    → lag ≢ router_unknown_latency
    → ((get_decayed_penalty now (penalty_key_for_peer p) (record_disconnect now p r)).0
        ≡ min max_penalty (
            (get_decayed_penalty now (penalty_key_for_peer p) r).0
            + max min_disconnect_penalty (milliseconds lag)))
      × ((key : RouterPenaltyKey)
          → key ≢ penalty_key_for_peer p
          → (get_decayed_penalty now key (record_disconnect now p r)).0
            ≡ (get_decayed_penalty now key r).0)
record_disconnect_adds now lag p r found known = rw recorded (
  add_penalty_adds now key component r (omega arith),
  λ key' other. add_penalty_others now key key' component r (omega arith) other,
)
  where
    key : RouterPenaltyKey
    key = penalty_key_for_peer p

    component : ℕ
    component = max min_disconnect_penalty (milliseconds lag)

    recorded : record_disconnect now p r ≡ add_penalty now key component r
    recorded =
        unfold record_disconnect in
        rw (found, record_disconnect) (rw (==_ne lag router_unknown_latency known))

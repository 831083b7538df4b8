-- ===== src/Router/Penalties.antt =====
-- The part of ironwood/network/router.go that makes a peer costly after a lost link or a lost
-- answer: `_getCost`, `_addPenalty`, `_getDecayedPenalty`, `_recordDisconnect` and
-- `_penalizeMissedResponses`. `now` is what time.Now returns, in nanoseconds; the amounts that Go
-- keeps in an int64 are never negative.
pub mod Decay
pub mod Bounds
pub mod Recording
use yggdrasil_go.Base.{
  ℕ, ◌+◌, ◌-◌, ◌*◌, ◌/◌, ◌%◌, ◌^◌, ◌≤◌, ◌<◌, ◌≡◌, max, List, [], ◌∷◌, Option, none, some, Bool,
  true, false, not, ◌||◌, ltb, leb, ◌==◌, if◌then◌else◌,
}
use yggdrasil_go.Binary.{Bytes}
use yggdrasil_go.Map.{Map, lookup, insert, delete, get, is_in, bytes_key, number_key}
use yggdrasil_go.Router.State.{penalty_key, Router, Peer, RouterPenaltyKey, RouterPenaltyEntry}

-- Duration.Milliseconds
abbrev pub milliseconds : ℕ → ℕ
milliseconds d = d / 1000000

-- time.Duration(^uint32(0))
abbrev pub router_unknown_latency : ℕ
router_unknown_latency = 4294967295

-- penaltyHalfLife, minDisconnectPenalty, minLossPenalty, maxPenalty and penaltyCleanupThreshold in
-- milliseconds.
abbrev pub penalty_half_life : ℕ
penalty_half_life = 300000

abbrev pub min_disconnect_penalty : ℕ
min_disconnect_penalty = 200

abbrev pub min_loss_penalty : ℕ
min_loss_penalty = 50

abbrev pub max_penalty : ℕ
max_penalty = 30000

abbrev pub penalty_cleanup_threshold : ℕ
penalty_cleanup_threshold = 1

abbrev two_hl : ℕ
two_hl = 2 * penalty_half_life

-- The number that is left of a penalty after `elapsed_ms` milliseconds, less than 63 half-lives:
-- the halvings, then the linear interpolation.
abbrev pub interpolate : ℕ → ℕ → ℕ
interpolate penalty_ms elapsed_ms =
    penalty_ms
    / 2 ^ (elapsed_ms / penalty_half_life)
    * (two_hl - elapsed_ms % penalty_half_life)
    / two_hl

-- What the entry is worth at `now`; `none` where the entry is to be deleted. A time in the future
-- counts as now, as `-` on ℕ does.
unfoldable pub decay : ℕ → RouterPenaltyEntry → Option ℕ
decay now entry =
    let elapsed_ms = milliseconds (now - entry.recorded_at) in
    let left = interpolate entry.penalty_ms elapsed_ms in
    if leb 63 (elapsed_ms / penalty_half_life)
    then none
    else if ltb left penalty_cleanup_threshold
    then none
    else some left

unfoldable pub get_decayed_penalty : ℕ → RouterPenaltyKey → Router → ℕ × Router
get_decayed_penalty now key r = elim (lookup key r.penalties) [
  | none ↦ (0, r)
  | some entry ↦ elim (decay now entry) [
    | none ↦ (0, record r { penalties = delete key r.penalties })
    | some left ↦ (left, r)
  ]
]

unfoldable pub penalty_key_for_peer : Peer → RouterPenaltyKey
penalty_key_for_peer p = record { key = p.key; protocol = p.protocol }

unfoldable pub add_penalty : ℕ → RouterPenaltyKey → ℕ → Router → Router
add_penalty now key component r =
    if leb component 0
    then r
    else let (existing, r') = get_decayed_penalty now key r in
      let total = existing + component in
      let capped = if ltb max_penalty total then max_penalty else total in
      record r' {
        penalties = insert key (record { penalty_ms = capped; recorded_at = now }) r'.penalties;
      }

-- The cost is a uint64 of the sum, which is far below 2 ^ 64.
unfoldable pub get_cost : ℕ → Peer → Router → ℕ × Router
get_cost now p r =
    let lag = milliseconds (get 0 p.id r.lags) in
    let (penalty, r') = get_decayed_penalty now (penalty_key_for_peer p) r in
    let c = lag + penalty in (if c == 0 then 1 else c, r')

unfoldable pub record_disconnect : ℕ → Peer → Router → Router
record_disconnect now p r = elim (lookup p.id r.lags) [
  | none ↦ r
  | some lag ↦
      if lag == router_unknown_latency
      then r
      else add_penalty now (penalty_key_for_peer p) (max min_disconnect_penalty (milliseconds lag))
          r
]

-- The body of the inner loop of `_penalizeMissedResponses`.
unfoldable pub penalize_peer : ℕ → Peer → Router → Router
penalize_peer now p r =
    let lag = get 0 p.id r.lags in
    let more = lag + lag / 8 in
    let increased = if ltb router_unknown_latency more then router_unknown_latency else more in
    let component = max min_loss_penalty (milliseconds (increased - lag)) in
    let r' = add_penalty now (penalty_key_for_peer p) component r in
    if is_in p.id r.responded
    then r
    else if lag == router_unknown_latency
    then r
    else record r' { lags = insert p.id increased r'.lags }

unfoldable pub penalize_peers : ℕ → Map ℕ Peer → Router → Router
penalize_peers now [] r = r
penalize_peers now ((i, p) ∷ ps) r = penalize_peers now ps (penalize_peer now p r)

unfoldable pub penalize_loop : ℕ → Map Bytes (Map ℕ Peer) → Router → Router
penalize_loop now [] r = r
penalize_loop now ((pk, ps) ∷ more) r =
    penalize_loop now more (if is_in pk r.requests then penalize_peers now ps r else r)

-- `r.peers` and `r.requests` do not change in the loop.
unfoldable pub penalize_missed_responses : ℕ → Router → Router
penalize_missed_responses now r = penalize_loop now r.peers r

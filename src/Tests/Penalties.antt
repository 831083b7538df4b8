-- ===== src/Tests/Penalties.antt =====
-- The penalties at concrete inputs.
use yggdrasil_go.Base.{◌+◌, ◌*◌, ◌≤◌, ◌≡◌, ◌≢◌, refl, min, max, [], ◌∷◌, some, arith}
use yggdrasil_go.Map.{lookup, get, bytes_key, number_key}
use yggdrasil_go.Router.State.{Router, RouterPenaltyKey, RouterPenaltyEntry, penalty_key}
use yggdrasil_go.Router.Penalties.{
  get_decayed_penalty, penalty_key_for_peer, add_penalty, get_cost, record_disconnect,
  penalize_missed_responses, max_penalty, milliseconds, decay,
}
use yggdrasil_go.Router.Penalties.Decay.{decay_half_lives}
use yggdrasil_go.Router.Penalties.Bounds.{IsBounded}
use yggdrasil_go.Router.Penalties.Recording.{
  penalties-IsBounded, get_cost_bounds, record_disconnect_adds,
}
use yggdrasil_go.Tests.Data.{peer_of, small_router}

abbrev entry : RouterPenaltyEntry
entry = record { penalty_ms = 8000; recorded_at = 1000 }

-- Twelve seconds less than two half-lives.
decayed : decay (1000 + 588000000000) entry ≡ some 2080
unfolding decay
decayed = refl

decay_half_lives_example : decay (1000 + 2 * (300000 * 1000000)) entry ≡ some 2000
decay_half_lives_example = decay_half_lives 2 entry (omega arith) (omega arith)

abbrev a_key : RouterPenaltyKey
a_key = penalty_key_for_peer (peer_of 2)

abbrev penalised : Router
penalised = record small_router { penalties = (a_key, entry) ∷ [] }

penalised-IsBounded : IsBounded penalised.penalties
unfolding lookup
penalised-IsBounded key e found = ground arith

penalties-IsBounded_example :
    IsBounded (get_decayed_penalty 5000 a_key penalised).1.penalties
    × IsBounded (add_penalty 5000 a_key 700 penalised).penalties
    × IsBounded (record_disconnect 5000 (peer_of 2) penalised).penalties
    × IsBounded (penalize_missed_responses 5000 penalised).penalties
penalties-IsBounded_example =
    penalties-IsBounded 5000 700 a_key (peer_of 2) penalised penalised-IsBounded

get_cost_bounds_example :
    (1 ≤ (get_cost 5000 (peer_of 2) penalised).0)
    × ((get_cost 5000 (peer_of 2) penalised).0
        ≤ max 1 (milliseconds (get 0 2 penalised.lags) + max_penalty))
get_cost_bounds_example = get_cost_bounds 5000 (peer_of 2) penalised penalised-IsBounded

record_disconnect_adds_example :
    ((get_decayed_penalty 5000 a_key (record_disconnect 5000 (peer_of 2) penalised)).0
      ≡ min max_penalty ((get_decayed_penalty 5000 a_key penalised).0 + max 200 300))
    × ((key : RouterPenaltyKey)
        → key ≢ a_key
        → (get_decayed_penalty 5000 key (record_disconnect 5000 (peer_of 2) penalised)).0
          ≡ (get_decayed_penalty 5000 key penalised).0)
unfolding lookup
record_disconnect_adds_example =
    record_disconnect_adds 5000 300000000 (peer_of 2) penalised refl (omega arith)

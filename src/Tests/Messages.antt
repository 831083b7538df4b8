-- ===== src/Tests/Messages.antt =====
-- The packets at concrete inputs.
use yggdrasil_go.Base.{ℕ, ◌≡◌, refl, [], ◌∷◌, ◌++◌, some, length, arith}
use yggdrasil_go.Binary.{Bytes}
use yggdrasil_go.Tests.Data.{key_of, sig_of, request, response, announcement}
use yggdrasil_go.Messages.Traffic
use yggdrasil_go.Messages.Traffic.{Traffic}
use yggdrasil_go.Messages.Traffic.Laws as TrafficLaws
use yggdrasil_go.Messages.PathLookup.{PathLookup}
use yggdrasil_go.Messages.PathLookup.Laws as PathLookupLaws
use yggdrasil_go.Messages.PathBroken.{PathBroken}
use yggdrasil_go.Messages.PathBroken.Laws as PathBrokenLaws
use yggdrasil_go.Messages.PathNotifyInfo.{PathNotifyInfo}
use yggdrasil_go.Messages.PathNotifyInfo.Laws as PathNotifyInfoLaws
use yggdrasil_go.Messages.PathNotify.{PathNotify}
use yggdrasil_go.Messages.PathNotify.Laws as PathNotifyLaws
use yggdrasil_go.Messages.RouterSigReq.{RouterSigReq}
use yggdrasil_go.Messages.RouterSigReq.Laws as RouterSigReqLaws
use yggdrasil_go.Messages.RouterSigRes.{RouterSigRes}
use yggdrasil_go.Messages.RouterSigRes.Laws as RouterSigResLaws
use yggdrasil_go.Messages.RouterAnnounce
use yggdrasil_go.Messages.RouterAnnounce.{RouterAnnounce}
use yggdrasil_go.Messages.RouterAnnounce.Laws as RouterAnnounceLaws

abbrev a_traffic : Traffic
a_traffic = record {
  path = 3 ∷ 300 ∷ [];
  from = 4 ∷ [];
  source = key_of 1;
  dest = key_of 2;
  watermark = 900;
  payload = 1 ∷ 2 ∷ [];
}

a_traffic-IsWellFormed : TrafficLaws.IsWellFormed a_traffic
a_traffic-IsWellFormed = record {
  path_ports = omega arith;
  from_ports = omega arith;
  source_key = refl;
  dest_key = refl;
  watermark_u64 = omega arith;
}

traffic_round_trip_example :
    (bs : Bytes) × (Traffic.encode (1 ∷ []) a_traffic ≡ some ((1 ∷ []) ++ bs))
    × (length bs ≡ Traffic.size a_traffic)
    × (Traffic.decode bs ≡ some a_traffic)
traffic_round_trip_example =
    TrafficLaws.traffic_round_trip (1 ∷ []) a_traffic a_traffic-IsWellFormed

abbrev a_path_lookup : PathLookup
a_path_lookup = record { source = key_of 1; dest = key_of 2; from = 4 ∷ [] }

a_path_lookup-IsWellFormed : PathLookupLaws.IsWellFormed a_path_lookup
a_path_lookup-IsWellFormed = record { source_key = refl; dest_key = refl; from_ports = omega arith }

abbrev a_path_broken : PathBroken
a_path_broken = record { path = 3 ∷ []; watermark = 900; source = key_of 1; dest = key_of 2 }

a_path_broken-IsWellFormed : PathBrokenLaws.IsWellFormed a_path_broken
a_path_broken-IsWellFormed = record {
  path_ports = omega arith;
  watermark_u64 = omega arith;
  source_key = refl;
  dest_key = refl;
}

abbrev a_path_notify_info : PathNotifyInfo
a_path_notify_info = record { seq = 12; path = 3 ∷ []; sig = sig_of 1 }

a_path_notify_info-IsWellFormed : PathNotifyInfoLaws.IsWellFormed a_path_notify_info
a_path_notify_info-IsWellFormed = record {
  seq_u64 = omega arith;
  path_ports = omega arith;
  sig_size = refl;
}

abbrev a_path_notify : PathNotify
a_path_notify = record {
  path = 3 ∷ [];
  watermark = 900;
  source = key_of 1;
  dest = key_of 2;
  info = a_path_notify_info;
}

a_path_notify-IsWellFormed : PathNotifyLaws.IsWellFormed a_path_notify
a_path_notify-IsWellFormed = record {
  path_ports = omega arith;
  watermark_u64 = omega arith;
  source_key = refl;
  dest_key = refl;
  info_formed = a_path_notify_info-IsWellFormed;
}

abbrev a_router_sig_req : RouterSigReq
a_router_sig_req = request 7

a_router_sig_req-IsWellFormed : RouterSigReqLaws.IsWellFormed a_router_sig_req
a_router_sig_req-IsWellFormed = record { seq_u64 = omega arith; nonce_u64 = omega arith }

abbrev a_router_sig_res : RouterSigRes
a_router_sig_res = response 7 5

a_router_sig_res-IsWellFormed : RouterSigResLaws.IsWellFormed a_router_sig_res
a_router_sig_res-IsWellFormed = record {
  req_formed = a_router_sig_req-IsWellFormed;
  port_u64 = omega arith;
  psig_size = refl;
}

abbrev a_router_announce : RouterAnnounce
a_router_announce = announcement 1 2 7

a_router_announce-IsWellFormed : RouterAnnounceLaws.IsWellFormed a_router_announce
a_router_announce-IsWellFormed = record {
  key_size = refl;
  parent_size = refl;
  res_formed = a_router_sig_res-IsWellFormed;
  sig_size = refl;
}

router_announce_round_trip_example :
    (bs : Bytes) × (RouterAnnounce.encode (1 ∷ []) a_router_announce ≡ some ((1 ∷ []) ++ bs))
    × (length bs ≡ RouterAnnounce.size a_router_announce)
    × (RouterAnnounce.decode bs ≡ some a_router_announce)
router_announce_round_trip_example =
    RouterAnnounceLaws.router_announce_round_trip (1 ∷ []) a_router_announce
      a_router_announce-IsWellFormed

bytes_for_sig_injective_example :
    (key_of 1 ≡ key_of 1) × (key_of 2 ≡ key_of 2) × (request 7 ≡ request 7) × (◌≡◌ {A = ℕ} 5 5)
bytes_for_sig_injective_example =
    RouterSigResLaws.bytes_for_sig_injective (key_of 1) (key_of 2) (key_of 1) (key_of 2)
      a_router_sig_res a_router_sig_res refl refl refl refl a_router_sig_res-IsWellFormed
      a_router_sig_res-IsWellFormed refl

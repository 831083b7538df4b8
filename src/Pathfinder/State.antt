-- ===== src/Pathfinder/State.antt =====
-- The state of the pathfinder of ironwood/network/pathfinder.go, and what it reads of its node.
use yggdrasil_go.Base.{ℕ, List, [], ◌∷◌, ◌++◌, Option, Bool, ltb, ◌-◌}
use yggdrasil_go.Binary.{Bytes}
use yggdrasil_go.Map.{Map, insert, bytes_key}
use yggdrasil_go.Messages.PathNotifyInfo.{PathNotifyInfo}
use yggdrasil_go.Messages.PathNotify.{PathNotify}
use yggdrasil_go.Messages.PathLookup.{PathLookup}
use yggdrasil_go.Messages.PathBroken.{PathBroken}
use yggdrasil_go.Messages.Traffic.{Traffic}
use yggdrasil_go.Router.State.{Router, Peer}
use yggdrasil_go.Blooms.Filters.{Filters}
use yggdrasil_go.Blooms.State.{Blooms}

-- A timer is a number, and `fires` the time for which it is set. Times are in nanoseconds.
pub record PathInfo : Type 0 where
  pub path : List ℕ
  pub seq : ℕ
  pub req_time : ℕ
  pub timer : ℕ
  pub fires : ℕ
  pub traffic : Option Traffic
  pub broken : Bool

pub record PathRumor : Type 0 where
  pub traffic : Option Traffic
  pub send_time : ℕ
  pub timer : ℕ
  pub fires : ℕ

-- What the pathfinder asks of others: the sends to a peer, of which `multicast` are those of one
-- `_sendMulticast`, `handleTraffic` of the router, which is put in the router's queue, and the
-- callback of the configuration.
pub data Event : Type 0 where
  multicast : List Peer → PathLookup → Event
  send_notify : Peer → PathNotify → Event
  send_broken : Peer → PathBroken → Event
  route : Traffic → Event
  found_path : Bytes → Event

-- `next_timer` is the timer that time.AfterFunc gives next; the events are in their order.
pub record Pathfinder : Type 0 where
  pub router : Router
  pub info : PathNotifyInfo
  pub paths : Map Bytes PathInfo
  pub rumors : Map Bytes PathRumor
  pub next_timer : ℕ
  pub events : List Event

-- The configuration, the private key's method `sign`, and `verify` of public keys; and the Bloom
-- filters of the node, which these handlers read and do not change.
pub record Config : Type 1 where
  pub Filter : Type 0
  pub filters : Filters Filter
  pub blooms : Blooms Filter
  pub transform : Bytes → Bytes
  pub path_throttle : ℕ
  pub path_timeout : ℕ
  pub sign_with : Bytes → Bytes
  pub verify : Bytes → Bytes → Bytes → Bool

unfoldable pub emit : Event → Pathfinder → Pathfinder
emit e pf = record pf { events = pf.events ++ (e ∷ []) }

-- `time.Since(t) < throttle`
unfoldable pub is_throttled : Config → ℕ → ℕ → Bool
is_throttled c now t = ltb (now - t) c.path_throttle

-- `pf.paths[key] = info`
unfoldable pub put_path : Bytes → PathInfo → Pathfinder → Pathfinder
put_path key info pf = record pf { paths = insert key info pf.paths }

unfoldable pub put_rumor : Bytes → PathRumor → Pathfinder → Pathfinder
put_rumor xform rumor pf = record pf { rumors = insert xform rumor pf.rumors }

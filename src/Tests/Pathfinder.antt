-- ===== src/Tests/Pathfinder.antt =====
-- A pathfinder with one rumour, and an answer to it.
use yggdrasil_go.Base.{
  Bool, false, not, ◌||◌, ◌==◌, if◌then◌else◌, get_or, ◌≡◌, refl, [], ◌∷◌, Option, none, some, true,
  false, ◌⊎◌, replicate,
}
use yggdrasil_go.Map.{lookup, insert, get, is_in, bytes_key}
use yggdrasil_go.Crypto.{equal}
use yggdrasil_go.Messages.PathNotify
use yggdrasil_go.Messages.PathNotify.{PathNotify}
use yggdrasil_go.Messages.Traffic.{Traffic}
use yggdrasil_go.Router.State.{Peer, init}
use yggdrasil_go.Router.Tree.{get_root_and_path, path_loop, get_dist, dist_loop}
use yggdrasil_go.Router.Forwarding.{tree_lookup}
use yggdrasil_go.Blooms.Filters.{Filters}
use yggdrasil_go.Blooms.State.{x_key, peers_of}
use yggdrasil_go.Blooms.Sending.{send_multicast, multicast_loop, wants, best_of}
use yggdrasil_go.Blooms.Sending.Linked.{HasLinks}
use yggdrasil_go.Pathfinder.State.{
  multicast, PathInfo, Pathfinder, Config, emit, put_path, put_rumor,
}
use yggdrasil_go.Pathfinder.Finding.{
  handle_notify, handle_traffic, accept_notify, new_path, store_path, send_traffic, own_path,
  watermark_or, rumor_send_lookup, send_lookup, handle_lookup, multicast_to, answer_lookup,
  keep_traffic, lookup_for,
}
use yggdrasil_go.Pathfinder.Finding.Keeping.{IsFiled}
use yggdrasil_go.Pathfinder.Finding.Totality.{handle_traffic_total}
use yggdrasil_go.Pathfinder.Finding.Authentic.{Accepted, handle_notify_authentic}

-- A filter of one bit.
abbrev bit : Filters Bool
bit = record {
  new = false;
  add = λ k f. true;
  merge = λ f g. f || g;
  test = λ k f. f;
  equal = λ f g. if f then g else not g;
  words = λ f. replicate 128 (if f then 1 else 0);
  from_words = λ us. get_or us 0 0 == 1;
}

abbrev link : Peer
link = record { id = 1; key = 8 ∷ []; port = 1; prio = 0; order = 1; protocol = [] }

abbrev config : Config
config = record {
  Filter = Bool;
  filters = bit;
  blooms = record {
    infos =
        (8 ∷ [], record { send = false; recv = true; seq = 0; on_tree = true; z_dirty = false })
        ∷ [];
    sent = [];
  };
  transform = λ k. k;
  path_throttle = 1000000000;
  path_timeout = 60000000000;
  sign_with = λ bs. replicate 64 1;
  verify = λ key bs sig. true;
}

abbrev waiting : Traffic
waiting = record {
  path = [];
  from = [];
  source = 5 ∷ [];
  dest = 9 ∷ [];
  watermark = 100;
  payload = 1 ∷ 2 ∷ [];
}

abbrev finder : Pathfinder
finder = record {
  router = record (init (5 ∷ [])) { peers = (8 ∷ [], (1, link) ∷ []) ∷ [] };
  info = record { seq = 0; path = []; sig = [] };
  paths = [];
  rumors =
      (
        9 ∷ replicate 31 0,
        record { traffic = some waiting; send_time = 0; timer = 0; fires = 60000000000 },
      )
      ∷ [];
  next_timer = 1;
  events = [];
}

finder-IsFiled : IsFiled finder.paths
unfolding lookup
finder-IsFiled key info tr found kept = cc

finder-HasLinks : HasLinks config.blooms finder.router
unfolding peers_of get lookup equal
finder-HasLinks = (λ on e. cc, tt)

handle_traffic_total_example :
    (pf' : Pathfinder) × (handle_traffic 2 config 0 waiting finder ≡ some pf') × IsFiled pf'.paths
handle_traffic_total_example =
    handle_traffic_total 0 config 0 waiting finder finder-HasLinks finder-IsFiled

abbrev finder_or : Option Pathfinder → Pathfinder
finder_or none = finder
finder_or (some pf) = pf

-- With no rumour, the lookup goes to the neighbour.
abbrev searching : Pathfinder
searching = finder_or (handle_traffic 2 config 0 waiting (record finder { rumors = [] }))

lookup_sent : searching.events ≡ multicast (link ∷ []) (lookup_for (9 ∷ []) finder) ∷ []
unfolding handle_traffic rumor_send_lookup send_lookup handle_lookup multicast_to answer_lookup
    send_multicast multicast_loop wants best_of peers_of get lookup insert equal x_key emit
    put_rumor keep_traffic lookup_for own_path get_root_and_path path_loop is_in init
lookup_sent = refl

abbrev answered : PathNotify
answered = record {
  path = [];
  watermark = 0;
  source = 9 ∷ [];
  dest = 5 ∷ [];
  info = record { seq = 7; path = 3 ∷ 4 ∷ []; sig = [] };
}

abbrev found_finder : Pathfinder
found_finder = finder_or (handle_notify (handle_traffic 1 config 0) config 0 answered finder)

abbrev new_entry : PathInfo
new_entry = record {
  path = 3 ∷ 4 ∷ [];
  seq = 7;
  req_time = 0;
  timer = 1;
  fires = 60000000000;
  traffic = some (record waiting { path = 3 ∷ 4 ∷ [] });
  broken = false;
}

handle_notify_authentic_example :
    ((old : PathInfo) × (lookup (9 ∷ []) finder.paths ≡ some old)
      × (3 ∷ 4 ∷ [] ≡ old.path)
      × (7 ≡ old.seq))
    ⊎ ((9 ∷ [] ≡ answered.source)
        × (3 ∷ 4 ∷ [] ≡ answered.info.path)
        × (7 ≡ answered.info.seq)
        × Accepted config answered finder.paths)
unfolding handle_notify accept_notify new_path store_path handle_traffic send_traffic emit put_path
    put_rumor lookup insert equal x_key init own_path watermark_or tree_lookup get_dist
    get_root_and_path path_loop dist_loop is_in PathNotify.check
handle_notify_authentic_example =
    handle_notify_authentic 0 config 0 answered (9 ∷ []) new_entry finder found_finder
      finder-IsFiled refl refl

-- ===== src/Pathfinder/Finding.antt =====
-- The handlers of ironwood/network/pathfinder.go. They call each other in a cycle: traffic without
-- a path starts a lookup, which the node may answer itself, and an answer sends the traffic that
-- waits for it. `again` is the call of `_handleTraffic` at the end of the cycle.
pub mod Keeping
pub mod Totality
pub mod Authentic
use yggdrasil_go.Base.{
  ℕ, zero, suc, ◌+◌, ◌-◌, ◌/◌, ◌^◌, List, [], ◌∷◌, ◌++◌, Option, none, some, Bool, true, false, not,
  ◌&&◌, ◌||◌, leb, ltb, ◌==◌, if◌then◌else◌, ◌>>=◌,
}
use yggdrasil_go.Binary.{Bytes}
use yggdrasil_go.Crypto.{equal}
use yggdrasil_go.Map.{Map, lookup, insert, delete, is_in, bytes_key}
use yggdrasil_go.Messages.PathNotifyInfo
use yggdrasil_go.Messages.PathNotifyInfo.{PathNotifyInfo}
use yggdrasil_go.Messages.PathNotify
use yggdrasil_go.Messages.PathNotify.{PathNotify}
use yggdrasil_go.Messages.PathLookup.{PathLookup}
use yggdrasil_go.Messages.PathBroken.{PathBroken}
use yggdrasil_go.Messages.Traffic.{Traffic}
use yggdrasil_go.Router.State.{Router, Peer}
use yggdrasil_go.Router.Tree.{get_root_and_path}
use yggdrasil_go.Router.Forwarding.{tree_lookup}
use yggdrasil_go.Blooms.State.{x_key, is_on_tree}
use yggdrasil_go.Blooms.Sending.{send_multicast}
use yggdrasil_go.Pathfinder.State.{
  PathInfo, PathRumor, Event, multicast, send_notify, send_broken, route, found_path, Pathfinder,
  Config, emit, is_throttled, put_path, put_rumor,
}

abbrev pub max_uint64 : ℕ
max_uint64 = 2 ^ 64 - 1

abbrev pub Again : Type 0
Again = Traffic → Pathfinder → Option Pathfinder

-- The own coordinates.
unfoldable pub own_path : Pathfinder → List ℕ
own_path pf = (get_root_and_path pf.router.public_key pf.router.infos).1

unfoldable pub watermark_or : ℕ → Option ℕ → ℕ
watermark_or w none = w
watermark_or w (some v) = v

-- A path that is known is replaced by a newer one that is different and signed: the entry for it.
unfoldable pub renew_path : Config → ℕ → PathNotify → PathInfo → Option PathInfo
renew_path c now notify info =
    let nfo = record notify.info { path = info.path } in
    if leb notify.info.seq info.seq
    then none
    else if PathNotifyInfo.equal nfo notify.info
    then none
    else if not (PathNotify.check c.verify notify)
    then none
    else some (record info { fires = now + c.path_timeout })

-- A path that is not known is taken when there is a rumour about it: the entry for it, with the
-- traffic that the rumour keeps for it.
unfoldable pub new_path : Config → ℕ → PathNotify → Pathfinder → Option (PathInfo × Pathfinder)
new_path c now notify pf =
    let xform = x_key c.transform notify.source in
    elim (lookup xform pf.rumors) [
      | none ↦ none
      | some rumor ↦
          let info : PathInfo = record {
            path = [];
            seq = 0;
            req_time = now;
            timer = pf.next_timer;
            fires = now + c.path_timeout;
            traffic = none;
            broken = false;
          } in
          let pf1 = record pf { next_timer = pf.next_timer + 1 } in
          if not (PathNotify.check c.verify notify) then none else elim rumor.traffic [
            | none ↦ some (info, pf1)
            | some tr ↦
                if equal tr.dest notify.source
                then some (
                  record info { traffic = some tr },
                  put_rumor xform (record rumor { traffic = none }) pf1,
                )
                else some (info, pf1)
          ]
    ]

-- The entry of `_handleNotify` that is stored, when the notify is accepted.
unfoldable pub accept_notify : Config → ℕ → PathNotify → Pathfinder → Option (PathInfo × Pathfinder)
unfolding renew_path new_path
accept_notify c now notify pf = elim (lookup notify.source pf.paths) [
  | none ↦ new_path c now notify pf
  | some info ↦ (renew_path c now notify info >>= λ info'. some (info', pf))
]

-- The end of `_handleNotify`: the path is stored, and the waiting traffic is sent.
unfoldable pub store_path : Again → PathNotify → PathInfo → Pathfinder → Option Pathfinder
store_path again notify info pf =
    let info' = record info {
      path = notify.info.path;
      seq = notify.info.seq;
      broken = false;
      traffic = none;
    } in
    let pf1 = emit (found_path notify.source) (put_path notify.source info' pf) in
    elim info.traffic [ none ↦ some pf1 | some tr ↦ again tr pf1 ]

-- `none` is a panic, or the end of the fuel of `again`.
unfoldable pub handle_notify : Again → Config → ℕ → PathNotify → Pathfinder → Option Pathfinder
unfolding accept_notify store_path
handle_notify again c now notify pf =
    let (p, (mark, r)) = tree_lookup now notify.path (some notify.watermark) pf.router in
    let pf1 = record pf { router = r } in
    let notify1 = record notify { watermark = watermark_or notify.watermark mark } in
    elim p [
      | some peer ↦ some (emit (send_notify peer notify1) pf1)
      | none ↦
          if not (equal notify.dest pf.router.public_key)
          then some pf1
          else elim (accept_notify c now notify1 pf1) [
            | none ↦ some pf1
            | some (info, pf2) ↦ store_path again notify1 info pf2
          ]
    ]

-- The answer to a lookup: the signature is made again when the coordinates or the second changed.
unfoldable pub answer : Config → ℕ → PathLookup → Pathfinder → PathNotify × Pathfinder
unfolding own_path
answer c now search pf =
    let info : PathNotifyInfo = record { seq = now / 1000000000; path = own_path pf; sig = [] } in
    let notify : PathNotify = record {
      path = search.from;
      watermark = max_uint64;
      source = pf.router.public_key;
      dest = search.source;
      info = info;
    } in
    let signed = PathNotifyInfo.sign c.sign_with info in
    if not (PathNotifyInfo.equal pf.info info)
    then (record notify { info = signed }, record pf { info = signed })
    else (record notify { info = pf.info }, pf)

-- `_sendMulticast` of the Bloom filters, with its panic.
unfoldable pub multicast_to : Config → Bytes → Bytes → Router → Option (List Peer)
multicast_to c from dest r = send_multicast c.filters c.transform r from dest c.blooms

-- `_handleLookup` after its multicast: this node answers when the lookup is for its own key.
unfoldable pub answer_lookup : Again → Config → ℕ → PathLookup → Pathfinder → Option Pathfinder
unfolding answer handle_notify
answer_lookup again c now search pf =
    let (notify, pf1) = answer c now search pf in
    if equal (x_key c.transform search.dest) (x_key c.transform pf.router.public_key)
    then handle_notify again c now notify pf1
    else some pf

unfoldable pub handle_lookup :
    Again → Config → ℕ → Bytes → PathLookup → Pathfinder → Option Pathfinder
unfolding multicast_to answer_lookup
handle_lookup again c now from search pf = multicast_to c from search.dest pf.router >>= λ peers.
    answer_lookup again c now search (emit (multicast peers search) pf)

-- handleLookup: a lookup of a peer that is not next to this node on the tree is dropped.
unfoldable pub receive_lookup :
    Again → Config → ℕ → Bytes → PathLookup → Pathfinder → Option Pathfinder
unfolding handle_lookup
receive_lookup again c now from search pf =
    if not (is_on_tree c.filters from c.blooms)
    then some pf
    else handle_lookup again c now from search pf

-- The lookup for a node from this one.
unfoldable pub lookup_for : Bytes → Pathfinder → PathLookup
unfolding own_path
lookup_for dest pf = record { source = pf.router.public_key; dest = dest; from = own_path pf }

unfoldable pub send_lookup : Again → Config → ℕ → Bytes → Pathfinder → Option Pathfinder
unfolding handle_lookup lookup_for
send_lookup again c now dest pf =
    let send = handle_lookup again c now pf.router.public_key (lookup_for dest pf) pf in
    elim (lookup dest pf.paths) [
      | none ↦ send
      | some info ↦ if is_throttled c now info.req_time then some pf else send
    ]

unfoldable pub rumor_send_lookup : Again → Config → ℕ → Bytes → Pathfinder → Option Pathfinder
unfolding send_lookup
rumor_send_lookup again c now dest pf =
    let xform = x_key c.transform dest in
    elim (lookup xform pf.rumors) [
      | some rumor ↦
          if is_throttled c now rumor.send_time
          then some pf
          else send_lookup again c now dest
              (put_rumor xform (record rumor { send_time = now; fires = now + c.path_timeout }) pf)
      | none ↦
          let rumor : PathRumor = record {
            traffic = none;
            send_time = now;
            timer = pf.next_timer;
            fires = now + c.path_timeout;
          } in
          send_lookup again c now dest
            (put_rumor xform rumor (record pf { next_timer = pf.next_timer + 1 }))
    ]

-- Traffic for which there is a path: it gets the path and the own coordinates, and a copy is kept.
unfoldable pub send_traffic : Traffic → PathInfo → Pathfinder → Pathfinder
unfolding own_path
send_traffic tr info pf =
    let tr' = record tr { path = info.path; from = own_path pf } in
    emit (route tr') (put_path tr.dest (record info { traffic = some tr' }) pf)

-- Traffic that waits in the rumour. `none` is the panic.
unfoldable pub keep_traffic : Config → Traffic → Pathfinder → Option Pathfinder
keep_traffic c tr pf =
    let xform = x_key c.transform tr.dest in
    elim (lookup xform pf.rumors) [
      | none ↦ none
      | some rumor ↦ some (put_rumor xform (record rumor { traffic = some tr }) pf)
    ]

-- The depth of the calls of `_handleTraffic` inside each other is the fuel.
unfoldable pub handle_traffic : ℕ → Config → ℕ → Traffic → Pathfinder → Option Pathfinder
unfolding send_traffic rumor_send_lookup keep_traffic
handle_traffic zero c now tr pf = none
handle_traffic (suc fuel) c now tr pf =
    let again = handle_traffic fuel c now in
    elim (lookup tr.dest pf.paths) [
      | some info ↦ some (send_traffic tr info pf)
      | none ↦ (rumor_send_lookup again c now tr.dest pf >>= λ pf1. keep_traffic c tr pf1)
    ]

unfoldable pub handle_broken : Again → Config → ℕ → PathBroken → Pathfinder → Option Pathfinder
unfolding send_lookup
handle_broken again c now broken pf =
    let (p, (mark, r)) = tree_lookup now broken.path (some broken.watermark) pf.router in
    let pf1 = record pf { router = r } in
    let broken1 = record broken { watermark = watermark_or broken.watermark mark } in
    elim p [
      | some peer ↦ some (emit (send_broken peer broken1) pf1)
      | none ↦
          if not (equal broken.source pf.router.public_key)
          then some pf1
          else elim (lookup broken.dest pf.paths) [
            | none ↦ some pf1
            | some info ↦
                send_lookup again c now broken.dest
                  (put_path broken.dest (record info { broken = true }) pf1)
          ]
    ]

unfoldable pub do_broken : Again → Config → ℕ → Traffic → Pathfinder → Option Pathfinder
unfolding handle_broken
do_broken again c now tr pf =
    handle_broken again c now
      (record { path = tr.from; watermark = max_uint64; source = tr.source; dest = tr.dest }) pf

unfoldable pub reset_timeout : Config → ℕ → Bytes → Pathfinder → Pathfinder
reset_timeout c now key pf = elim (lookup key pf.paths) [
  | none ↦ pf
  | some info ↦
      if info.broken then pf else put_path key (record info { fires = now + c.path_timeout }) pf
]

-- The functions of the timers: they delete the entry that they were set for.
unfoldable pub path_expired : Bytes → ℕ → Pathfinder → Pathfinder
path_expired key timer pf = elim (lookup key pf.paths) [
  | none ↦ pf
  | some info ↦ if info.timer == timer then record pf { paths = delete key pf.paths } else pf
]

unfoldable pub rumor_expired : Bytes → ℕ → Pathfinder → Pathfinder
rumor_expired xform timer pf = elim (lookup xform pf.rumors) [
  | none ↦ pf
  | some rumor ↦ if rumor.timer == timer then record pf { rumors = delete xform pf.rumors } else pf
]

-- ===== src/Router/Infos.antt =====
-- The part of ironwood/network/router.go that stores what nodes announce of themselves: `_update`
-- with the timers that it starts, and `_handleAnnounce`.
pub mod Order
pub mod Convergence
pub mod Safety
pub mod Timers
use yggdrasil_go.Base.{
  ℕ, ◌+◌, ◌≡◌, List, [], ◌∷◌, ◌++◌, Option, none, some, Bool, true, false, not, ◌&&◌, ltb, ◌==◌,
  if◌then◌else◌, ◌>>=◌,
}
use yggdrasil_go.Binary.{Bytes}
use yggdrasil_go.Crypto.{equal, less}
use yggdrasil_go.Map.{Map, SetOf, lookup, insert, delete, bytes_key}
use yggdrasil_go.Messages.RouterAnnounce.{RouterAnnounce, RouterInfo, get_announce}
use yggdrasil_go.Router.State.{Router, Peer, Send, announce}

-- The `switch` of `_update`: whether the announcement replaces what is stored.
unfoldable pub accepts : RouterInfo → RouterAnnounce → Bool
accepts info ann =
    if ltb ann.seq info.seq
    then false
    else if ltb info.seq ann.seq
    then true
    else if less info.parent ann.parent
    then false
    else if less ann.parent info.parent
    then true
    else if ltb ann.nonce info.nonce
    then true
    else false

unfoldable pub info_of : RouterAnnounce → RouterInfo
info_of ann = record { parent = ann.parent; res = ann.res; sig = ann.sig }

-- `for _, sent := range r.sent { delete(sent, key) }`
unfoldable pub forget_sent : Bytes → Map Bytes (SetOf Bytes) → Map Bytes (SetOf Bytes)
forget_sent key [] = []
forget_sent key ((peer, sent) ∷ m) = (peer, delete key sent) ∷ forget_sent key m

unfoldable pub reset_cache : Router → Router
reset_cache r = record r { cache = [] }

-- The rest of `_update`. The old timer is stopped, and the new one takes its place in the map.
unfoldable pub save : RouterAnnounce → Router → Router
unfolding reset_cache info_of
save ann r =
    let r' = reset_cache (record r { sent = forget_sent ann.key r.sent }) in
    record r' {
      timers = insert ann.key r.next_timer r.timers;
      next_timer = r.next_timer + 1;
      infos = insert ann.key (info_of ann) r.infos;
    }

unfoldable pub update : RouterAnnounce → Router → Bool × Router
update ann r = elim (lookup ann.key r.infos) [
  | none ↦ (true, save ann r)
  | some info ↦ if accepts info ann then (true, save ann r) else (false, r)
]

-- What the timer `timer` of `key` does when it fires: the own entry is due for a refresh, any other
-- is dropped, and a timer that is no longer the key's does nothing.
unfoldable pub timer_fired : Bytes → ℕ → Router → Router
unfolding reset_cache
timer_fired key timer r =
    let dropped = reset_cache (record r {
      infos = delete key r.infos;
      timers = delete key r.timers;
      sent = forget_sent key r.sent;
    }) in
    elim (lookup key r.timers) [
      | none ↦ r
      | some t ↦
          if not (t == timer)
          then r
          else if equal key r.public_key
          then record r { refresh = true }
          else dropped
    ]

-- `info != oldInfo` compares the fields of the structs.
unfoldable pub same_info : RouterInfo → RouterInfo → Bool
same_info a b =
    equal a.parent b.parent
    && (a.seq == b.seq)
    && (a.nonce == b.nonce)
    && (a.port == b.port)
    && equal a.psig b.psig
    && equal a.sig b.sig

-- `r.sent[peer][key] = struct{}{}`, which panics where `r.sent[peer]` is nil.
unfoldable pub mark_sent : Bytes → Bytes → Router → Option Router
mark_sent peer key r = do
  sent ← lookup peer r.sent
  some (record r { sent = insert peer (insert key tt sent) r.sent })

unfoldable pub send : Send → Router → Router
send s r = record r { sends = r.sends ++ (s ∷ []) }

-- The branch of `_handleAnnounce` for an announcement that `_update` refused. It did so because of
-- the stored entry.
unfoldable pub answer_refused : Peer → RouterAnnounce → Router → Option Router
unfolding send mark_sent
answer_refused p ann r = do
  r' ← mark_sent p.key ann.key r
  old ← lookup ann.key r.infos
  some (if same_info (info_of ann) old then r' else send (announce p (get_announce old ann.key)) r')

unfoldable pub handle_announce : Peer → RouterAnnounce → Router → Option Router
unfolding answer_refused mark_sent
handle_announce p ann r =
    let (accepted, r1) = update ann r in
    let r2 = if equal ann.key r1.public_key then record r1 { refresh = true } else r1 in
    if accepted then mark_sent p.key ann.key r2 else answer_refused p ann r1

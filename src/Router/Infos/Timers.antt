-- ===== src/Router/Infos/Timers.antt =====
-- The timers of `_update`.
use yggdrasil_go.Base.{ℕ, ◌<◌, ◌≡◌, none, some, true, false, arith, ==_ne, ==_refl}
use yggdrasil_go.Crypto.{equal}
use yggdrasil_go.Map.{lookup, bytes_key}
use yggdrasil_go.Map.Laws.{lookup-insert_self, lookup-delete_self}
use yggdrasil_go.Messages.RouterAnnounce.{RouterAnnounce}
use yggdrasil_go.Router.State.{Router}
use yggdrasil_go.Router.Infos.{update, save, reset_cache, timer_fired}

-- An accepted announcement leaves the number of its timer under its key.
update_timer :
    (ann : RouterAnnounce) (r : Router)
    → (update ann r).0 ≡ true
    → lookup ann.key (update ann r).1.timers ≡ some r.next_timer
unfolding update save reset_cache
update_timer ann r t = ground (arith, lookup-insert_self ann.key r.next_timer r.timers)

-- After an announcement was accepted, a timer that was started before it does nothing when it
-- fires. The timer started for it marks the own entry for a refresh, and removes any other.
pub timer_fired-update :
    (ann : RouterAnnounce) (r : Router) (old : ℕ)
    → (update ann r).0 ≡ true
    → old < r.next_timer
    → (timer_fired ann.key old (update ann r).1 ≡ (update ann r).1)
      × (equal ann.key (update ann r).1.public_key ≡ true
          → (timer_fired ann.key r.next_timer (update ann r).1).refresh ≡ true)
      × (equal ann.key (update ann r).1.public_key ≡ false
          → lookup ann.key (timer_fired ann.key r.next_timer (update ann r).1).infos ≡ none)
unfolding timer_fired reset_cache
timer_fired-update ann r old t h =
    let e = update_timer ann r t in
    (
      rw (e, timer_fired) (rw (==_ne r.next_timer old (omega arith))),
      (λ own. rw (e, timer_fired) (rw (==_refl r.next_timer, own))),
      (λ foreign.
          rw (e, timer_fired) (rw (==_refl r.next_timer, foreign) (lookup-delete_self ann.key _))),
    )

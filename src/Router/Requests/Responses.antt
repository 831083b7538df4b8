-- ===== src/Router/Requests/Responses.antt =====
-- What a peer's answer changes.
use yggdrasil_go.Base.{
  ℕ, ◌+◌, ◌≡◌, refl, ◌∙◌, ap, true, not, ◌&&◌, Bool-cases, inl, inr, if◌then◌else◌,
}
use yggdrasil_go.Map.{insert, get, is_in, bytes_key, number_key}
use yggdrasil_go.Map.Laws.{is_in-insert, same_refl}
use yggdrasil_go.Messages.RouterSigRes.{RouterSigRes}
use yggdrasil_go.Router.State.{Router, Peer}
use yggdrasil_go.Router.Requests.{answers, smoothed, handle_response}

abbrev stored : Peer → RouterSigRes → Router → Router
stored p res r = record r {
  res_seq_ctr = r.res_seq_ctr + 1;
  res_seqs = insert p.key (r.res_seq_ctr + 1) r.res_seqs;
  responses = insert p.key res r.responses;
}

abbrev measured : Peer → ℕ → Router → Router
measured p rtt r = record r {
  responded = insert p.id tt r.responded;
  lags = insert p.id (smoothed (get 0 p.id r.lags) rtt) r.lags;
}

-- The answer of the node is stored, unless there is one.
store_step : Peer → RouterSigRes → Router → Router
store_step p res r = if not (is_in p.key r.responses) && answers p res r then stored p res r else r

measure_step : Peer → RouterSigRes → ℕ → Router → Router
measure_step p res rtt r =
    if not (is_in p.id r.responded) && answers p res r then measured p rtt r else r

steps :
    (p : Peer) (res : RouterSigRes) (rtt : ℕ) (r : Router)
    → handle_response p res rtt r ≡ measure_step p res rtt (store_step p res r)
unfolding handle_response store_step measure_step
steps p res rtt r = refl

-- Both an answer of the node and one over this link are known.
IsAnswered : Peer → Router → Type 0
IsAnswered p r = (is_in p.key r.responses ≡ true) × (is_in p.id r.responded ≡ true)

store_step-answers :
    (p : Peer) (res : RouterSigRes) (r : Router)
    → answers p res r ≡ true
    → (answers p res (store_step p res r) ≡ true)
      × (is_in p.key (store_step p res r).responses ≡ true)
unfolding store_step
store_step-answers p res r a = elim (Bool-cases (is_in p.key r.responses)) [
  | inl e ↦ rw e (a, e)
  | inr e ↦
      rw (e, a)
        (unfold answers in a, is_in-insert p.key p.key res r.responses ∙ rw (same_refl p.key))
]

answered-unchanged :
    (p : Peer) (res : RouterSigRes) (rtt : ℕ) (r : Router)
    → IsAnswered p r
    → handle_response p res rtt r ≡ r
unfolding IsAnswered
answered-unchanged p res rtt r (a, b) =
    let first : store_step p res r ≡ r = unfold store_step in rw a in
    let second : measure_step p res rtt r ≡ r = unfold measure_step in rw b in
    steps p res rtt r ∙ ap (measure_step p res rtt) first ∙ second

handle_response-IsAnswered :
    (p : Peer) (res : RouterSigRes) (rtt : ℕ) (r : Router)
    → answers p res r ≡ true
    → IsAnswered p (handle_response p res rtt r)
unfolding IsAnswered measure_step
handle_response-IsAnswered p res rtt r a =
    let s = store_step p res r in
    let (again, here) = store_step-answers p res r a in
    rw (steps p res rtt r) (elim (Bool-cases (is_in p.id s.responded)) [
      | inl e ↦ rw e (here, e)
      | inr e ↦ rw (e, again) (here, is_in-insert p.id p.id tt s.responded ∙ rw (same_refl p.id))
    ])

-- A response to the open request is counted once for each link: another response over the link,
-- whatever it says, changes nothing.
pub handle_response_once :
    (p : Peer) (res res' : RouterSigRes) (rtt rtt' : ℕ) (r : Router)
    → answers p res r ≡ true
    → handle_response p res' rtt' (handle_response p res rtt r) ≡ handle_response p res rtt r
handle_response_once p res res' rtt rtt' r a =
    answered-unchanged p res' rtt' (handle_response p res rtt r)
      (handle_response-IsAnswered p res rtt r a)

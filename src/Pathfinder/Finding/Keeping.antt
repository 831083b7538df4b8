-- ===== src/Pathfinder/Finding/Keeping.antt =====
-- What the steps of the handlers of ironwood/network/pathfinder.go keep.
use yggdrasil_go.Base.{
  ℕ, suc, ◌/◌, ◌≡◌, refl, sym, ap, ◌∙◌, [], none, some, Bool, true, false, if◌then◌else◌, leb,
  Bool-cases, Option-cases, inl, inr, some_pair, some_eq, >>=-eq-some,
}
use yggdrasil_go.Binary.{Bytes}
use yggdrasil_go.Crypto.{equal}
use yggdrasil_go.Crypto.Order.{eq_of_equal, ne_of_equal}
use yggdrasil_go.Map.{Map, lookup, insert, is_in, bytes_key}
use yggdrasil_go.Map.Laws.{lookup-insert_self, lookup-insert_ne, is_in-insert}
use yggdrasil_go.Messages.PathNotifyInfo
use yggdrasil_go.Messages.PathNotifyInfo.{PathNotifyInfo}
use yggdrasil_go.Messages.PathNotify
use yggdrasil_go.Messages.PathNotify.{PathNotify}
use yggdrasil_go.Messages.PathLookup.{PathLookup}
use yggdrasil_go.Messages.Traffic.{Traffic}
use yggdrasil_go.Blooms.State.{x_key}
use yggdrasil_go.Pathfinder.State.{PathInfo, Pathfinder, Config, emit, put_path, put_rumor, Event}
use yggdrasil_go.Pathfinder.Finding.{
  renew_path, new_path, accept_notify, answer, own_path, rumor_send_lookup, send_traffic,
  keep_traffic, handle_traffic,
}

-- The traffic that is kept with a path is addressed to the node that the path leads to.
abbrev pub IsFiled : Map Bytes PathInfo → Type 0
IsFiled m =
    (key : Bytes) (info : PathInfo) (tr : Traffic)
    → lookup key m ≡ some info
    → info.traffic ≡ some tr
    → tr.dest ≡ key

-- The paths stay filed, and no rumour is deleted.
pub record Keeps (pf pf' : Pathfinder) : Type 0 where
  pub filed : IsFiled pf'.paths
  pub rumored : (x : Bytes) → is_in x pf.rumors ≡ true → is_in x pf'.rumors ≡ true

pub IsFiled-insert :
    (k : Bytes) (info : PathInfo) (m : Map Bytes PathInfo)
    → IsFiled m
    → ((tr : Traffic) → info.traffic ≡ some tr → tr.dest ≡ k)
    → IsFiled (insert k info m)
IsFiled-insert k info m filed own key i tr found kept = elim (Bool-cases (equal key k)) [
  | inl same ↦
      let ek : key ≡ k = eq_of_equal key k same in
      let here : some info ≡ some i =
        sym (lookup-insert_self k info m) ∙ ap (λ z. lookup z (insert k info m)) (sym ek) ∙ found in
      own tr (ap PathInfo.traffic (some_eq here) ∙ kept) ∙ sym ek
  | inr other ↦
      filed key i tr (sym (lookup-insert_ne k key info m (ne_of_equal key k other)) ∙ found) kept
]

pub is_in_kept :
    {V : Type 0} (k x : Bytes) (v : V) (m : Map Bytes V)
    → is_in x m ≡ true
    → is_in x (insert k v m) ≡ true
is_in_kept k x v m h = is_in-insert k x v m ∙ either (equal x k)
  where
    either : (same : Bool) → (if same then true else is_in x m) ≡ true
    either true = refl
    either false = h

pub handle_traffic-found :
    (fuel : ℕ) (c : Config) (now : ℕ) (tr : Traffic) (info : PathInfo) (pf : Pathfinder)
    → lookup tr.dest pf.paths ≡ some info
    → handle_traffic (suc fuel) c now tr pf ≡ some (send_traffic tr info pf)
unfolding handle_traffic
handle_traffic-found fuel c now tr info pf found = rw (found, handle_traffic) refl

pub send_traffic-Keeps :
    (tr : Traffic) (info : PathInfo) (pf : Pathfinder)
    → IsFiled pf.paths
    → Keeps pf (send_traffic tr info pf)
unfolding send_traffic emit put_path
send_traffic-Keeps tr info pf filed =
    let tr' = record tr { path = info.path; from = own_path pf } in
    record {
      filed =
          IsFiled-insert tr.dest (record info { traffic = some tr' }) pf.paths filed
            (λ t e. ap Traffic.dest (sym (some_eq e)));
      rumored = λ x h. h;
    }

pub Keeps-trans : (a b d : Pathfinder) → Keeps a b → Keeps b d → Keeps a d
Keeps-trans a b d h k = record { filed = k.filed; rumored = λ x i. k.rumored x (h.rumored x i) }

pub handle_traffic-missing :
    (fuel : ℕ) (c : Config) (now : ℕ) (tr : Traffic) (pf pf1 : Pathfinder)
    → lookup tr.dest pf.paths ≡ none
    → rumor_send_lookup (handle_traffic fuel c now) c now tr.dest pf ≡ some pf1
    → handle_traffic (suc fuel) c now tr pf ≡ keep_traffic c tr pf1
unfolding handle_traffic
handle_traffic-missing fuel c now tr pf pf1 missing sent = rw (missing, handle_traffic, sent) refl

pub emit-Keeps : (e : Event) (pf : Pathfinder) → IsFiled pf.paths → Keeps pf (emit e pf)
unfolding emit
emit-Keeps e pf filed = record { filed = filed; rumored = λ x h. h }

pub answer-Keeps :
    (c : Config) (now : ℕ) (search : PathLookup) (pf : Pathfinder)
    → IsFiled pf.paths
    → Keeps pf (answer c now search pf).1
unfolding answer
answer-Keeps c now search pf filed =
    let info : PathNotifyInfo = record { seq = now / 1000000000; path = own_path pf; sig = [] } in
    elim (Bool-cases (PathNotifyInfo.equal pf.info info)) [
      | inl same ↦ rw same (record { filed = filed; rumored = λ x h. h })
      | inr different ↦ rw different (record { filed = filed; rumored = λ x h. h })
    ]

module _ (c : Config) (now : ℕ) where
  renew_path-traffic :
      (notify : PathNotify) (old info : PathInfo)
      → renew_path c now notify old ≡ some info
      → info.traffic ≡ old.traffic
  unfolding renew_path
  renew_path-traffic notify old info e =
      let nfo = record notify.info { path = old.path } in
      elim (Bool-cases (leb notify.info.seq old.seq)) [
        | inl stale ↦ cc (rw stale at e)
        | inr newer ↦ elim (Bool-cases (PathNotifyInfo.equal nfo notify.info)) [
          | inl same ↦ cc (rw (newer, same) at e)
          | inr different ↦ elim (Bool-cases (PathNotify.check c.verify notify)) [
            | inr forged ↦ cc (rw (newer, different, forged) at e)
            | inl signed ↦ ap PathInfo.traffic (sym (some_eq (rw (newer, different, signed) at e)))
          ]
        ]
      ]

  new_path-Keeps :
      (notify : PathNotify) (info : PathInfo) (pf pf' : Pathfinder)
      → IsFiled pf.paths
      → new_path c now notify pf ≡ some (info, pf')
      → Keeps pf pf' × ((tr : Traffic) → info.traffic ≡ some tr → tr.dest ≡ notify.source)
  unfolding new_path put_rumor
  new_path-Keeps notify info pf pf' filed e =
      let xform = x_key c.transform notify.source in
      elim (Option-cases (lookup xform pf.rumors)) [
        | inl missing ↦ cc (rw (missing, new_path) at e)
        | inr (rumor, rumored) ↦ elim (Bool-cases (PathNotify.check c.verify notify)) [
          | inr forged ↦ cc (rw (rumored, new_path, forged) at e)
          | inl signed ↦ elim (Option-cases rumor.traffic) [
            | inl nothing ↦
                let (ei, ep) = some_pair (rw (rumored, new_path, signed, nothing) at e) in
                (
                  record {
                    filed = rw (sym (ap Pathfinder.paths ep)) filed;
                    rumored = λ x h. rw (sym (ap Pathfinder.rumors ep)) h;
                  },
                  λ tr h. cc (ap PathInfo.traffic ei, h),
                )
            | inr (waiting, kept) ↦ elim (Bool-cases (equal waiting.dest notify.source)) [
              | inr other ↦
                  let (ei, ep) = some_pair (rw (rumored, new_path, signed, kept, other) at e) in
                  (
                    record {
                      filed = rw (sym (ap Pathfinder.paths ep)) filed;
                      rumored = λ x h. rw (sym (ap Pathfinder.rumors ep)) h;
                    },
                    λ tr h. cc (ap PathInfo.traffic ei, h),
                  )
              | inl same ↦
                  let (ei, ep) = some_pair (rw (rumored, new_path, signed, kept, same) at e) in
                  (
                    record {
                      filed = rw (sym (ap Pathfinder.paths ep)) filed;
                      rumored = λ x h.
                          rw (sym (ap Pathfinder.rumors ep))
                            (is_in_kept xform x (record rumor { traffic = none }) pf.rumors h);
                    },
                    λ tr h.
                        ap Traffic.dest (sym (some_eq (ap PathInfo.traffic ei ∙ h)))
                        ∙ eq_of_equal waiting.dest notify.source same,
                  )
            ]
          ]
        ]
      ]

  -- What an accepted notify leaves to store.
  pub accept_notify-Keeps :
      (notify : PathNotify) (info : PathInfo) (pf pf' : Pathfinder)
      → IsFiled pf.paths
      → accept_notify c now notify pf ≡ some (info, pf')
      → Keeps pf pf' × ((tr : Traffic) → info.traffic ≡ some tr → tr.dest ≡ notify.source)
  unfolding accept_notify
  accept_notify-Keeps notify info pf pf' filed e =
      elim (Option-cases (lookup notify.source pf.paths)) [
        | inr (old, found) ↦
            let (info1, e1, e2) =
              >>=-eq-some (renew_path c now notify old) _ (rw (found, accept_notify) at e) in
            let (ei, ep) = some_pair e2 in
            (
              rw (sym ep) (record { filed = filed; rumored = λ x h. h }),
              λ tr h.
                  filed notify.source old tr found
                    (sym (renew_path-traffic notify old info1 e1) ∙ ap PathInfo.traffic ei ∙ h),
            )
        | inl missing ↦ new_path-Keeps notify info pf pf' filed (rw (missing, accept_notify) at e)
      ]

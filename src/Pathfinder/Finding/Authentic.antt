-- ===== src/Pathfinder/Finding/Authentic.antt =====
-- Which answers change a path of ironwood/network/pathfinder.go.
use yggdrasil_go.Base.{
  ℕ, suc, ◌<◌, ◌≡◌, refl, sym, ap, ◌∙◌, none, some, true, false, leb, leb_false→lt, Bool-cases,
  Option-cases, inl, inr, ◌⊎◌, some_pair, some_eq, >>=-eq-some,
}
use yggdrasil_go.Binary.{Bytes}
use yggdrasil_go.Crypto.{equal}
use yggdrasil_go.Crypto.Order.{eq_of_equal, ne_of_equal}
use yggdrasil_go.Map.{Map, lookup, insert, bytes_key}
use yggdrasil_go.Map.Laws.{lookup-insert_self, lookup-insert_ne}
use yggdrasil_go.Messages.PathNotifyInfo
use yggdrasil_go.Messages.PathNotify
use yggdrasil_go.Messages.PathNotify.{PathNotify}
use yggdrasil_go.Messages.Traffic.{Traffic}
use yggdrasil_go.Router.Forwarding.{tree_lookup}
use yggdrasil_go.Blooms.State.{x_key}
use yggdrasil_go.Pathfinder.State.{
  PathInfo, Pathfinder, Config, emit, put_path, put_rumor, found_path,
}
use yggdrasil_go.Pathfinder.Finding.{
  renew_path, new_path, accept_notify, store_path, handle_notify, send_traffic, handle_traffic,
  own_path, watermark_or,
}
use yggdrasil_go.Pathfinder.Finding.Keeping.{IsFiled, accept_notify-Keeps, handle_traffic-found}

-- The notify is signed by its source, and newer than what is known of the source.
pub record Accepted (c : Config) (notify : PathNotify) (paths : Map Bytes PathInfo) : Type 0 where
  pub signed : PathNotify.check c.verify notify ≡ true
  pub newer :
      (lookup notify.source paths ≡ none)
      ⊎ ((old : PathInfo) × (lookup notify.source paths ≡ some old) × (old.seq < notify.info.seq))

module _ (c : Config) (now : ℕ) (notify : PathNotify) where
  renew_path-Accepted :
      (old info : PathInfo)
      → renew_path c now notify old ≡ some info
      → (PathNotify.check c.verify notify ≡ true) × (old.seq < notify.info.seq)
  unfolding renew_path
  renew_path-Accepted old info e =
      let nfo = record notify.info { path = old.path } in
      elim (Bool-cases (leb notify.info.seq old.seq)) [
        | inl stale ↦ cc (rw stale at e)
        | inr newer ↦ elim (Bool-cases (PathNotifyInfo.equal nfo notify.info)) [
          | inl same ↦ cc (rw (newer, same) at e)
          | inr different ↦ elim (Bool-cases (PathNotify.check c.verify notify)) [
            | inr forged ↦ cc (rw (newer, different, forged) at e)
            | inl signed ↦ (signed, leb_false→lt notify.info.seq old.seq newer)
          ]
        ]
      ]

  new_path-Accepted :
      (info : PathInfo) (pf pf' : Pathfinder)
      → new_path c now notify pf ≡ some (info, pf')
      → (PathNotify.check c.verify notify ≡ true) × (pf'.paths ≡ pf.paths)
  unfolding new_path put_rumor
  new_path-Accepted info pf pf' e =
      elim (Option-cases (lookup (x_key c.transform notify.source) pf.rumors)) [
        | inl missing ↦ cc (rw (missing, new_path) at e)
        | inr (rumor, rumored) ↦ elim (Bool-cases (PathNotify.check c.verify notify)) [
          | inr forged ↦ cc (rw (rumored, new_path, forged) at e)
          | inl signed ↦ (
            signed,
            elim (Option-cases rumor.traffic) [
              | inl nothing ↦
                  ap Pathfinder.paths
                    (sym (some_pair (rw (rumored, new_path, signed, nothing) at e)).1)
              | inr (waiting, kept) ↦ elim (Bool-cases (equal waiting.dest notify.source)) [
                | inl same ↦
                    ap Pathfinder.paths
                      (sym (some_pair (rw (rumored, new_path, signed, kept, same) at e)).1)
                | inr other ↦
                    ap Pathfinder.paths
                      (sym (some_pair (rw (rumored, new_path, signed, kept, other) at e)).1)
              ]
            ],
          )
        ]
      ]

  accept_notify-Accepted :
      (info : PathInfo) (pf pf' : Pathfinder)
      → accept_notify c now notify pf ≡ some (info, pf')
      → Accepted c notify pf.paths × (pf'.paths ≡ pf.paths)
  unfolding accept_notify
  accept_notify-Accepted info pf pf' e = elim (Option-cases (lookup notify.source pf.paths)) [
    | inr (old, found) ↦
        let (info1, e1, e2) =
          >>=-eq-some (renew_path c now notify old) _ (rw (found, accept_notify) at e) in
        let (signed, newer) = renew_path-Accepted old info1 e1 in
        (
          record { signed = signed; newer = inr (old, found, newer) },
          ap Pathfinder.paths (sym (some_pair e2).1),
        )
    | inl missing ↦
        let (signed, same) = new_path-Accepted info pf pf' (rw (missing, accept_notify) at e) in
        (record { signed = signed; newer = inl missing }, same)
  ]

  -- Where a path comes from that is there after the notify was stored.
  abbrev From : (key : Bytes) (paths : Map Bytes PathInfo) (i : PathInfo) → Type 0
  From key paths i =
      ((old : PathInfo) × (lookup key paths ≡ some old) × (i.path ≡ old.path) × (i.seq ≡ old.seq))
      ⊎ ((key ≡ notify.source) × (i.path ≡ notify.info.path) × (i.seq ≡ notify.info.seq))

  -- An entry that was put for the source has the notify's path.
  From-insert :
      (key : Bytes) (m paths : Map Bytes PathInfo) (info i : PathInfo)
      → info.path ≡ notify.info.path
      → info.seq ≡ notify.info.seq
      → lookup key (insert notify.source info m) ≡ some i
      → (lookup key m ≡ some i → From key paths i)
      → From key paths i
  From-insert key m paths info i path seq found before =
      elim (Bool-cases (equal key notify.source)) [
        | inl same ↦
            let ek : key ≡ notify.source = eq_of_equal key notify.source same in
            let here : some info ≡ some i =
              sym (lookup-insert_self notify.source info m)
              ∙ ap (λ z. lookup z (insert notify.source info m)) (sym ek)
              ∙ found in
            inr (
              ek,
              ap PathInfo.path (sym (some_eq here)) ∙ path,
              ap PathInfo.seq (sym (some_eq here)) ∙ seq,
            )
        | inr other ↦ before (
            sym (lookup-insert_ne notify.source key info m (ne_of_equal key notify.source other))
            ∙ found)
      ]

  store_path-From :
      (fuel : ℕ) (key : Bytes) (info i : PathInfo) (pf pf' : Pathfinder)
      → ((tr : Traffic) → info.traffic ≡ some tr → tr.dest ≡ notify.source)
      → store_path (handle_traffic (suc fuel) c now) notify info pf ≡ some pf'
      → lookup key pf'.paths ≡ some i
      → From key pf.paths i
  unfolding store_path emit put_path send_traffic
  store_path-From fuel key info i pf pf' own e found =
      let info' = record info {
        path = notify.info.path;
        seq = notify.info.seq;
        broken = false;
        traffic = none;
      } in
      let pf1 = emit (found_path notify.source) (put_path notify.source info' pf) in
      let first : lookup key pf1.paths ≡ some i → From key pf.paths i =
        λ h. From-insert key pf.paths pf.paths info' i refl refl h (λ k. inl (i, k, refl, refl)) in
      elim (Option-cases info.traffic) [
        | inl nothing ↦
            first (ap (λ z. lookup key (Pathfinder.paths z)) (some_eq (rw nothing at e)) ∙ found)
        | inr (tr, waiting) ↦
            let there : lookup tr.dest pf1.paths ≡ some info' =
              ap (λ z. lookup z pf1.paths) (own tr waiting)
              ∙ lookup-insert_self notify.source info' pf.paths in
            let sent : handle_traffic (suc fuel) c now tr pf1 ≡ some pf' = rw waiting at e in
            let result : send_traffic tr info' pf1 ≡ pf' =
              some_eq (sym (handle_traffic-found fuel c now tr info' pf1 there) ∙ sent) in
            let tr' = record tr { path = info'.path; from = own_path pf1 } in
            let final = record info' { traffic = some tr' } in
            let at_source : insert tr.dest final pf1.paths ≡ insert notify.source final pf1.paths =
              ap (λ z. insert z final pf1.paths) (own tr waiting) in
            From-insert key pf1.paths pf.paths final i refl refl
              (ap (lookup key) (sym at_source)
                ∙ ap (λ z. lookup key (Pathfinder.paths z)) result
                ∙ found)
              first
      ]

-- An answer changes or adds no path but the one of the node that it comes from, and this one only
-- when the answer is signed by that node, and is newer than what was known, if anything was; the
-- path is then the answer's. This holds when the traffic that is kept with each path is addressed
-- to the node of the path, with one call of `_handleTraffic` or more inside each other.
pub handle_notify_authentic :
    (fuel : ℕ) (c : Config) (now : ℕ) (notify : PathNotify) (key : Bytes) (i : PathInfo)
    (pf pf' : Pathfinder)
    → IsFiled pf.paths
    → handle_notify (handle_traffic (suc fuel) c now) c now notify pf ≡ some pf'
    → lookup key pf'.paths ≡ some i
    → ((old : PathInfo) × (lookup key pf.paths ≡ some old)
        × (i.path ≡ old.path)
        × (i.seq ≡ old.seq))
      ⊎ ((key ≡ notify.source)
          × (i.path ≡ notify.info.path)
          × (i.seq ≡ notify.info.seq)
          × Accepted c notify pf.paths)
unfolding handle_notify emit PathNotify.check
handle_notify_authentic fuel c now notify key i pf pf' filed e found =
    let search = tree_lookup now notify.path (some notify.watermark) pf.router in
    let pf1 = record pf { router = search.1.1 } in
    let notify1 = record notify { watermark = watermark_or notify.watermark search.1.0 } in
    elim (Option-cases search.0) [
      | inr (peer, near) ↦
          let same = some_eq (rw (near, handle_notify) at e) in
          inl (i, ap (λ z. lookup key (Pathfinder.paths z)) same ∙ found, refl, refl)
      | inl here ↦ elim (Bool-cases (equal notify.dest pf.router.public_key)) [
        | inr elsewhere ↦
            let same = some_eq (rw (here, handle_notify, elsewhere) at e) in
            inl (i, ap (λ z. lookup key (Pathfinder.paths z)) same ∙ found, refl, refl)
        | inl own ↦ elim (Option-cases (accept_notify c now notify1 pf1)) [
          | inl refused ↦
              let same = some_eq (rw (here, handle_notify, own, refused) at e) in
              inl (i, ap (λ z. lookup key (Pathfinder.paths z)) same ∙ found, refl, refl)
          | inr ((info, pf2), accepted) ↦
              let (_, dest) = accept_notify-Keeps c now notify1 info pf1 pf2 filed accepted in
              let (ok, same) = accept_notify-Accepted c now notify1 info pf1 pf2 accepted in
              let stored = rw (here, handle_notify, own, accepted) at e in
              elim (store_path-From c now notify1 fuel key info i pf2 pf' dest stored found) [
                | inl (old, before, same_path, same_seq) ↦
                    inl (old, ap (lookup key) (sym same) ∙ before, same_path, same_seq)
                | inr (ek, path, seq) ↦
                    inr (ek, path, seq, record { signed = ok.signed; newer = ok.newer })
              ]
        ]
      ]
    ]

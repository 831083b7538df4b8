-- ===== src/Pathfinder/Finding/Totality.antt =====
-- The cycle of calls of ironwood/network/pathfinder.go ends.
use yggdrasil_go.Base.{
  ℕ, suc, ◌+◌, ◌≡◌, refl, ap, ◌∙◌, none, some, true, false, Bool-cases, Option-cases, inl, inr,
}
use yggdrasil_go.Binary.{Bytes}
use yggdrasil_go.Crypto.{equal}
use yggdrasil_go.Map.{lookup, is_in, bytes_key}
use yggdrasil_go.Map.Laws.{lookup-insert_self, is_in-lookup, lookup-is_in}
use yggdrasil_go.Messages.PathNotify.{PathNotify}
use yggdrasil_go.Messages.PathLookup.{PathLookup}
use yggdrasil_go.Messages.Traffic.{Traffic}
use yggdrasil_go.Router.Forwarding.{tree_lookup}
use yggdrasil_go.Blooms.State.{x_key}
use yggdrasil_go.Blooms.Sending.Linked.{HasLinks, send_multicast_total}
use yggdrasil_go.Pathfinder.State.{
  PathInfo, PathRumor, Pathfinder, Config, emit, is_throttled, put_path, put_rumor, found_path,
  send_notify, multicast,
}
use yggdrasil_go.Pathfinder.Finding.{
  Again, accept_notify, store_path, handle_notify, answer, handle_lookup, watermark_or, send_lookup,
  rumor_send_lookup, send_traffic, keep_traffic, handle_traffic, lookup_for, answer_lookup,
  multicast_to,
}
use yggdrasil_go.Pathfinder.Finding.Keeping.{
  IsFiled, Keeps, IsFiled-insert, is_in_kept, handle_traffic-found, send_traffic-Keeps, Keeps-trans,
  handle_traffic-missing, emit-Keeps, answer-Keeps, accept_notify-Keeps,
}

module _ (fuel : ℕ) (c : Config) (now : ℕ) where
  abbrev again : Again
  again = handle_traffic (suc fuel) c now

  store_path_total :
      (notify : PathNotify) (info : PathInfo) (pf : Pathfinder)
      → IsFiled pf.paths
      → ((tr : Traffic) → info.traffic ≡ some tr → tr.dest ≡ notify.source)
      → (pf' : Pathfinder) × (store_path again notify info pf ≡ some pf') × Keeps pf pf'
  unfolding store_path emit put_path
  store_path_total notify info pf filed own =
      let info' = record info {
        path = notify.info.path;
        seq = notify.info.seq;
        broken = false;
        traffic = none;
      } in
      let pf1 = emit (found_path notify.source) (put_path notify.source info' pf) in
      let stored : Keeps pf pf1 = record {
        filed = IsFiled-insert notify.source info' pf.paths filed (λ tr e. cc e);
        rumored = λ x h. h;
      } in
      elim (Option-cases info.traffic) [
        | inl nothing ↦ (pf1, rw nothing refl, stored)
        | inr (tr, waiting) ↦
            let found : lookup tr.dest pf1.paths ≡ some info' =
              ap (λ z. lookup z pf1.paths) (own tr waiting)
              ∙ lookup-insert_self notify.source info' pf.paths in
            (
              send_traffic tr info' pf1,
              rw waiting (handle_traffic-found fuel c now tr info' pf1 found),
              Keeps-trans pf pf1 _ stored (send_traffic-Keeps tr info' pf1 stored.filed),
            )
      ]

  handle_notify_total :
      (notify : PathNotify) (pf : Pathfinder)
      → IsFiled pf.paths
      → (pf' : Pathfinder) × (handle_notify again c now notify pf ≡ some pf') × Keeps pf pf'
  unfolding handle_notify emit
  handle_notify_total notify pf filed =
      let found = tree_lookup now notify.path (some notify.watermark) pf.router in
      let pf1 = record pf { router = found.1.1 } in
      let notify1 = record notify { watermark = watermark_or notify.watermark found.1.0 } in
      let same : Keeps pf pf1 = record { filed = filed; rumored = λ x h. h } in
      elim (Option-cases found.0) [
        | inr (peer, near) ↦ (
          emit (send_notify peer notify1) pf1,
          rw (near, handle_notify) refl,
          record { filed = filed; rumored = λ x h. h },
        )
        | inl here ↦ elim (Bool-cases (equal notify.dest pf.router.public_key)) [
          | inr elsewhere ↦ (pf1, rw (here, handle_notify, elsewhere) refl, same)
          | inl own ↦ elim (Option-cases (accept_notify c now notify1 pf1)) [
            | inl refused ↦ (pf1, rw (here, handle_notify, own, refused) refl, same)
            | inr ((info, pf2), accepted) ↦
                let (kept, dest) = accept_notify-Keeps c now notify1 info pf1 pf2 filed accepted in
                let (pf3, stored, kept3) = store_path_total notify1 info pf2 kept.filed dest in
                (
                  pf3,
                  rw (here, handle_notify, own, accepted) stored,
                  Keeps-trans pf pf2 pf3 (Keeps-trans pf pf1 pf2 same kept) kept3,
                )
          ]
        ]
      ]

  answer_lookup_total :
      (search : PathLookup) (pf : Pathfinder)
      → IsFiled pf.paths
      → (pf' : Pathfinder) × (answer_lookup again c now search pf ≡ some pf') × Keeps pf pf'
  unfolding answer_lookup
  answer_lookup_total search pf filed =
      elim (Bool-cases
        (equal (x_key c.transform search.dest) (x_key c.transform pf.router.public_key))) [
          | inr other ↦ (pf, rw other refl, record { filed = filed; rumored = λ x h. h })
          | inl ours ↦
              let kept = answer-Keeps c now search pf filed in
              let (pf1, notified, kept1) =
                handle_notify_total (answer c now search pf).0 (answer c now search pf).1
                  kept.filed in
              (pf1, rw ours notified, Keeps-trans pf (answer c now search pf).1 pf1 kept kept1)
        ]

  handle_lookup_total :
      (from : Bytes) (search : PathLookup) (pf : Pathfinder)
      → HasLinks c.blooms pf.router
      → IsFiled pf.paths
      → (pf' : Pathfinder) × (handle_lookup again c now from search pf ≡ some pf') × Keeps pf pf'
  unfolding handle_lookup multicast_to
  handle_lookup_total from search pf linked filed =
      let (peers, sent) =
        send_multicast_total c.filters c.transform pf.router from search.dest c.blooms linked in
      let pf1 = emit (multicast peers search) pf in
      let first : Keeps pf pf1 = emit-Keeps (multicast peers search) pf filed in
      let (pf2, answered, kept) = answer_lookup_total search pf1 first.filed in
      (pf2, rw sent answered, Keeps-trans pf pf1 pf2 first kept)

  send_lookup_total :
      (dest : Bytes) (pf : Pathfinder)
      → HasLinks c.blooms pf.router
      → IsFiled pf.paths
      → (pf' : Pathfinder) × (send_lookup again c now dest pf ≡ some pf') × Keeps pf pf'
  unfolding send_lookup
  send_lookup_total dest pf linked filed =
      let search = lookup_for dest pf in
      let (pf1, sent, kept) = handle_lookup_total pf.router.public_key search pf linked filed in
      elim (Option-cases (lookup dest pf.paths)) [
        | inl missing ↦ (pf1, rw (missing, send_lookup) sent, kept)
        | inr (info, found) ↦ elim (Bool-cases (is_throttled c now info.req_time)) [
          | inl early ↦ (
            pf,
            rw (found, send_lookup, early) refl,
            record { filed = filed; rumored = λ x h. h },
          )
          | inr late ↦ (pf1, rw (found, send_lookup, late) sent, kept)
        ]
      ]

  rumor_send_lookup_total :
      (dest : Bytes) (pf : Pathfinder)
      → HasLinks c.blooms pf.router
      → IsFiled pf.paths
      → (pf' : Pathfinder) × (rumor_send_lookup again c now dest pf ≡ some pf')
        × Keeps pf pf'
        × (is_in (x_key c.transform dest) pf'.rumors ≡ true)
  unfolding rumor_send_lookup put_rumor
  rumor_send_lookup_total dest pf linked filed =
      let xform = x_key c.transform dest in
      elim (Option-cases (lookup xform pf.rumors)) [
        | inr (rumor, found) ↦
            let renewed = record rumor { send_time = now; fires = now + c.path_timeout } in
            let pf1 = put_rumor xform renewed pf in
            let (pf2, sent, kept) = send_lookup_total dest pf1 linked filed in
            elim (Bool-cases (is_throttled c now rumor.send_time)) [
              | inl early ↦ (
                pf,
                rw (found, rumor_send_lookup, early) refl,
                record { filed = filed; rumored = λ x h. h },
                is_in-lookup xform pf.rumors found,
              )
              | inr late ↦ (
                pf2,
                rw (found, rumor_send_lookup, late) sent,
                record {
                  filed = kept.filed;
                  rumored = λ x h. kept.rumored x (is_in_kept xform x renewed pf.rumors h);
                },
                kept.rumored xform
                    (is_in-lookup xform pf1.rumors (lookup-insert_self xform renewed pf.rumors)),
              )
            ]
        | inl missing ↦
            let created : PathRumor = record {
              traffic = none;
              send_time = now;
              timer = pf.next_timer;
              fires = now + c.path_timeout;
            } in
            let pf1 = put_rumor xform created (record pf { next_timer = pf.next_timer + 1 }) in
            let (pf2, sent, kept) = send_lookup_total dest pf1 linked filed in
            (
              pf2,
              rw (missing, rumor_send_lookup) sent,
              record {
                filed = kept.filed;
                rumored = λ x h. kept.rumored x (is_in_kept xform x created pf.rumors h);
              },
              kept.rumored xform
                  (is_in-lookup xform pf1.rumors (lookup-insert_self xform created pf.rumors)),
            )
      ]

-- Traffic is handled without a panic, `_sendMulticast` of a lookup included, and a depth of two calls
-- of `_handleTraffic` inside each other is enough: when each node of the Bloom filters that is on
-- the tree has a link, and the traffic that is kept with each path is addressed to the node of the
-- path, there is a result, and the traffic is kept in this way in it too.
pub handle_traffic_total :
    (fuel : ℕ) (c : Config) (now : ℕ) (tr : Traffic) (pf : Pathfinder)
    → HasLinks c.blooms pf.router
    → IsFiled pf.paths
    → (pf' : Pathfinder) × (handle_traffic (suc (suc fuel)) c now tr pf ≡ some pf')
      × IsFiled pf'.paths
unfolding keep_traffic put_rumor
handle_traffic_total fuel c now tr pf linked filed = elim (Option-cases (lookup tr.dest pf.paths)) [
  | inr (info, found) ↦ (
    send_traffic tr info pf,
    handle_traffic-found (suc fuel) c now tr info pf found,
    (send_traffic-Keeps tr info pf filed).filed,
  )
  | inl missing ↦
      let xform = x_key c.transform tr.dest in
      let (pf1, sent, kept, there) = rumor_send_lookup_total fuel c now tr.dest pf linked filed in
      let (rumor, found) = lookup-is_in xform pf1.rumors there in
      let waits = put_rumor xform (record rumor { traffic = some tr }) pf1 in
      let done : keep_traffic c tr pf1 ≡ some waits = rw (found, keep_traffic) refl in
      (waits, handle_traffic-missing (suc fuel) c now tr pf pf1 missing sent ∙ done, kept.filed)
]

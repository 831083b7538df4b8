-- ===== src/Router/Requests/Rooting.antt =====
-- The own announcement as a root, and how `_update` takes it.
use yggdrasil_go.Base.{
  ℕ, ◌+◌, ◌%◌, ◌^◌, ◌<◌, ◌≡◌, refl, sym, ◌∙◌, ap, some, Bool, true, Option-cases, inl, inr, arith,
}
use yggdrasil_go.Binary.{Bytes}
use yggdrasil_go.Crypto.Order.{equal_refl}
use yggdrasil_go.Map.{lookup, bytes_key}
use yggdrasil_go.Messages.RouterSigReq.{RouterSigReq}
use yggdrasil_go.Messages.RouterSigRes.{RouterSigRes}
use yggdrasil_go.Messages.RouterSigRes.Laws.{signed, bytes_for_sig-signed}
use yggdrasil_go.Messages.RouterAnnounce.{RouterAnnounce, RouterInfo, check}
use yggdrasil_go.Router.State.{Router}
use yggdrasil_go.Router.Infos.{accepts, info_of, update}
use yggdrasil_go.Router.Infos.Convergence.{merge, lookup-update_self}
use yggdrasil_go.Router.Requests.{own_seq, new_req, no_sig, sign_res, become_root}

newer_seq_accepted :
    (info : RouterInfo) (ann : RouterAnnounce) → info.seq < ann.seq → accepts info ann ≡ true
unfolding accepts
newer_seq_accepted info ann h = ground arith

-- An announcement of the own key with a higher sequence number is stored.
own_update :
    (ann : RouterAnnounce) (r : Router)
    → ann.key ≡ r.public_key
    → ann.seq ≡ own_seq r + 1
    → ((update ann r).0 ≡ true) × (lookup ann.key (update ann r).1.infos ≡ some (info_of ann))
own_update ann r same next = elim (Option-cases (lookup ann.key r.infos)) [
  | inl e ↦
      (unfold update in rw (e, update), lookup-update_self ann r ∙ (unfold merge in rw (e, merge)))
  | inr (info, e) ↦
      let known : lookup r.public_key r.infos ≡ some info =
        ap (λ k. lookup k r.infos) (sym same) ∙ e in
      let seq : own_seq r ≡ info.seq = unfold own_seq in rw (known, own_seq) refl in
      let t = newer_seq_accepted info ann (omega (arith, seq, next)) in
      (
        unfold update in rw (e, update) (rw t),
        lookup-update_self ann r ∙ (unfold merge in rw (e, merge) (rw t)),
      )
]

-- The response that a node signs for itself.
abbrev own_res : (Bytes → Bytes) → RouterSigReq → Router → RouterSigRes
own_res sign_with req r = record {
  req = req;
  port = 0;
  psig =
      sign_with (signed r.public_key r.public_key (record { req = req; port = 0; psig = no_sig }));
}

abbrev own_announcement : (Bytes → Bytes) → RouterSigReq → Router → RouterAnnounce
own_announcement sign_with req r = record {
  key = r.public_key;
  parent = r.public_key;
  res = own_res sign_with req r;
  sig = (own_res sign_with req r).psig;
}

sign_res-own :
    (sign_with : Bytes → Bytes) (req : RouterSigReq) (r : Router)
    → sign_res sign_with r.public_key r.public_key req 0 ≡ some (own_res sign_with req r)
unfolding sign_res
sign_res-own sign_with req r =
    rw
      (bytes_for_sig-signed r.public_key r.public_key
        (record { req = req; port = 0; psig = no_sig }))
      refl

check-own :
    (sign_with : Bytes → Bytes) (verify : Bytes → Bytes → Bytes → Bool) (req : RouterSigReq)
    (r : Router)
    → ((bs : Bytes) → verify r.public_key bs (sign_with bs) ≡ true)
    → check verify (own_announcement sign_with req r) ≡ some true
unfolding check signed
check-own sign_with verify req r good =
    rw (equal_refl r.public_key)
      (rw (bytes_for_sig-signed r.public_key r.public_key (own_res sign_with req r)) (rw good refl))

-- If the signatures of the own key are valid, and the sequence number has not reached the end of
-- the uint64s, then `_becomeRoot` does not panic and returns true, and the node has itself as its
-- parent, with the next sequence number.
pub become_root_accepted :
    (random : ℕ → ℕ) (sign_with : Bytes → Bytes) (verify : Bytes → Bytes → Bytes → Bool)
    (r : Router)
    → ((bs : Bytes) → verify r.public_key bs (sign_with bs) ≡ true)
    → own_seq r + 1 < 2 ^ 64
    → (s : Router) × (info : RouterInfo) × (become_root random sign_with verify r ≡ some (true, s))
      × (lookup r.public_key s.infos ≡ some info)
      × (info.parent ≡ r.public_key)
      × (info.seq ≡ own_seq r + 1)
unfolding become_root new_req info_of own_seq
become_root_accepted random sign_with verify r good small =
    let (req, r1) = new_req random r in
    let ann = own_announcement sign_with req r in
    let next : (own_seq r + 1) % 2 ^ 64 ≡ own_seq r + 1 = omega arith in
    let (taken, stored) = own_update ann r1 refl next in
    (
      (update ann r1).1,
      info_of ann,
      rw (sign_res-own sign_with req r)
          (rw (check-own sign_with verify req r good) (ap some (rw taken))),
      stored,
      refl,
      next,
    )

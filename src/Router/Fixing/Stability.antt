-- ===== src/Router/Fixing/Stability.antt =====
-- What `_fix` of ironwood/network/router.go leaves as it is while it selects a parent.
use yggdrasil_go.Base.{
  ℕ, ◌≡◌, refl, ap, ◌∙◌, [], ◌∷◌, ltb, if◌then◌else◌, Bool-cases, Option-cases, inl, inr,
}
use yggdrasil_go.Binary.{Bytes}
use yggdrasil_go.Map.{Map, lookup, get, bytes_key, number_key}
use yggdrasil_go.Router.State.{Router, Peer, penalty_key}
use yggdrasil_go.Router.Penalties.{get_cost, get_decayed_penalty, decay, penalty_key_for_peer}
use yggdrasil_go.Router.Forwarding.{max_uint64}
use yggdrasil_go.Router.Tree.{get_root_and_dists}
use yggdrasil_go.Router.Fixing.{
  zero_key, Choice, times, root_and_dists, self_parent, cheapest, choice_of, can_be_parent,
  choose_round,
}

-- The tree and the responses are the same.
pub record SameTree (r s : Router) : Type 0 where
  pub infos : s.infos ≡ r.infos
  pub own : s.public_key ≡ r.public_key
  pub responses : s.responses ≡ r.responses

pub SameTree-refl : (r : Router) → SameTree r r
SameTree-refl r = record { infos = refl; own = refl; responses = refl }

pub SameTree-trans : (r s t : Router) → SameTree r s → SameTree s t → SameTree r t
SameTree-trans r s t h k = record {
  infos = k.infos ∙ h.infos;
  own = k.own ∙ h.own;
  responses = k.responses ∙ h.responses;
}

pub get_cost-SameTree : (now : ℕ) (p : Peer) (r : Router) → SameTree r (get_cost now p r).1
unfolding get_cost get_decayed_penalty
get_cost-SameTree now p r = elim (Option-cases (lookup (penalty_key_for_peer p) r.penalties)) [
  | inl missing ↦ rw (missing, get_decayed_penalty) (SameTree-refl r)
  | inr (entry, found) ↦ elim (Option-cases (decay now entry)) [
    | inl gone ↦
        rw (found, get_decayed_penalty, gone)
          (record { infos = refl; own = refl; responses = refl })
    | inr (left, stays) ↦ rw (found, get_decayed_penalty, stays) (SameTree-refl r)
  ]
]

pub cheapest-SameTree :
    (now dist : ℕ) (ps : Map ℕ Peer) (cost : ℕ) (r : Router)
    → SameTree r (cheapest now dist ps cost r).1
unfolding cheapest
cheapest-SameTree now dist [] cost r = SameTree-refl r
cheapest-SameTree now dist ((i, p) ∷ ps) cost r =
    let c = times dist (get_cost now p r).0 in
    SameTree-trans r (get_cost now p r).1 _ (get_cost-SameTree now p r)
      (cheapest-SameTree now dist ps (if ltb c cost then c else cost) (get_cost now p r).1)

pub choice_of-SameTree : (now : ℕ) (pk : Bytes) (r : Router) → SameTree r (choice_of now pk r).1
unfolding choice_of
choice_of-SameTree now pk r =
    let (root, dists) = root_and_dists pk r in
    cheapest-SameTree now (get 0 root dists) (get [] pk r.peers) max_uint64 r

pub choose_round-SameTree :
    (now : ℕ) (pk : Bytes) (best : Choice) (r : Router) → SameTree r (choose_round now pk best r).1
unfolding choose_round
choose_round-SameTree now pk best r = elim (Bool-cases (can_be_parent pk r)) [
  | inl can ↦ rw can (choice_of-SameTree now pk r)
  | inr cannot ↦ rw cannot (SameTree-refl r)
]

pub root_and_dists-SameTree :
    (k : Bytes) (r s : Router) → SameTree r s → root_and_dists k s ≡ root_and_dists k r
unfolding root_and_dists
root_and_dists-SameTree k r s same = ap (get_root_and_dists zero_key k) same.infos

pub can_be_parent-SameTree :
    (k : Bytes) (r s : Router) → SameTree r s → can_be_parent k s ≡ can_be_parent k r
unfolding can_be_parent
can_be_parent-SameTree k r s same = rw (same.infos, same.own) refl

pub self_parent-SameTree : (r s : Router) → SameTree r s → self_parent s ≡ self_parent r
unfolding self_parent
self_parent-SameTree r s same = rw (same.infos, same.own, self_parent) refl

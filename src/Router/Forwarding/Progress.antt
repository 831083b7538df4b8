-- ===== src/Router/Forwarding/Progress.antt =====
-- A packet on its way: what `_lookup` selects, measured by the distance to the destination.
use yggdrasil_go.Base.{
  ℕ, ◌<◌, ◌≡◌, refl, sym, ◌∙◌, ap, List, [], ◌∷◌, map, Option, none, some, true, false, Bool-cases,
  inl, inr, ltb, All, All-append, arith, ltb→lt,
}
use yggdrasil_go.Binary.{Bytes}
use yggdrasil_go.Map.{Map, bytes_key}
use yggdrasil_go.Router.State.{Router, Peer}
use yggdrasil_go.Router.Penalties.{get_cost, get_decayed_penalty, penalty_key_for_peer}
use yggdrasil_go.Router.Penalties.Bounds.{got_decayed}
use yggdrasil_go.Router.Tree.{get_dist}
use yggdrasil_go.Router.Tree.Distance.{tree_dist}
use yggdrasil_go.Router.Tree.Caching.{path_of, IsCached, get_dist_lem}
use yggdrasil_go.Router.Forwarding.{
  candidates, Best, improves, accept, choose, best_peer, tree_lookup,
}

-- How far the node is from the end of the path.
abbrev pub dist_of : List ℕ → Router → Bytes → ℕ
dist_of path r key = tree_dist (path_of key r) path

-- Each peer is kept under its own key.
abbrev pub IsFiled : Map Bytes (Map ℕ Peer) → Type 0
IsFiled peers = All (λ (k, ps). All (λ (i, p). p.key ≡ k) ps) peers

-- A later state, with the same stored announcements, peers and key.
abbrev Follows : Router → Router → Type 0
Follows r r' =
    (r'.infos ≡ r.infos) × (r'.peers ≡ r.peers) × (r'.public_key ≡ r.public_key) × IsCached r'

get_dist-Follows :
    (path : List ℕ) (key : Bytes) (r : Router) → IsCached r → Follows r (get_dist path key r).1
get_dist-Follows path key r sound =
    let (_, kept, same) = get_dist_lem path key r sound in
    (ap (λ x. x.infos) same, ap (λ x. x.peers) same, ap (λ x. x.public_key) same, kept)

Follows-trans : (r s t : Router) → Follows r s → Follows s t → Follows r t
Follows-trans r s t (a, b, c, _) (a', b', c', d) = (a' ∙ a, b' ∙ b, c' ∙ c, d)

dist_of_cong :
    (path : List ℕ) (r s : Router) (key : Bytes)
    → Follows r s
    → dist_of path s key ≡ dist_of path r key
dist_of_cong path r s key (a, _, _, _) = rw a

get_decayed-Follows :
    (now : ℕ) (p : Peer) (r : Router)
    → IsCached r
    → Follows r (get_decayed_penalty now (penalty_key_for_peer p) r).1
get_decayed-Follows now p r sound = elim ((got_decayed now (penalty_key_for_peer p) r).1) [
  | inl e ↦ rw e (refl, refl, refl, sound)
  | inr (_, _, e) ↦ rw e (refl, refl, refl, sound)
]

get_cost-Follows : (now : ℕ) (p : Peer) (r : Router) → IsCached r → Follows r (get_cost now p r).1
unfolding get_cost
get_cost-Follows now p r sound = get_decayed-Follows now p r sound

values-All :
    (P : Peer → Type 0) (ps : Map ℕ Peer) → All (λ (i, p). P p) ps → All P (map (λ e. e.1) ps)
values-All P [] h = tt
values-All P ((i, p) ∷ ps) h = (h.0, values-All P ps h.1)

All-weaken :
    {P Q : ℕ × Peer → Type 0} (ps : Map ℕ Peer) → ((e : ℕ × Peer) → P e → Q e) → All P ps → All Q ps
All-weaken [] f h = tt
All-weaken (e ∷ ps) f h = (f e h.0, All-weaken ps f h.1)

-- The links that are collected lead to closer nodes.
candidates_lem :
    (path : List ℕ) (best : ℕ) (m : Map Bytes (Map ℕ Peer)) (r s : Router)
    → Follows r s
    → IsFiled m
    → Follows r (candidates path best m s).1
      × All (λ p. dist_of path r p.key < best) (candidates path best m s).0
unfolding candidates
candidates_lem path best [] r s f h = (f, tt)
candidates_lem path best ((k, ps) ∷ more) r s f h =
    let g = Follows-trans r s (get_dist path k s).1 f (get_dist-Follows path k s f.3) in
    let rest = candidates_lem path best more r (get_dist path k s).1 g h.1 in
    let measured = (get_dist_lem path k s f.3).0 ∙ dist_of_cong path r s k f in
    (
      rest.0,
      elim (Bool-cases (ltb (get_dist path k s).0 best)) [
        | inr far ↦ rw far rest.1
        | inl near ↦
            let close : dist_of path r k < best = omega (arith, ltb→lt _ _ near, measured) in
            rw near (
              All-append _ (map (λ e. e.1) ps) _
                (values-All _ ps (All-weaken ps (λ (i, p) same. rw same close) h.0)) rest.1)
      ],
    )

abbrev Holds : (Peer → Type 0) → Option Best → Type 0
Holds P none = Unit {0}
Holds P (some b) = P b.peer

accept-Holds :
    (P : Peer → Type 0) (best : Option Best) (c : Best)
    → Holds P best
    → P c.peer
    → P (accept best c).peer
accept-Holds P none c h k = unfold accept in k
accept-Holds P (some b) c h k = elim (Bool-cases (improves b c)) [
  | inl t ↦ unfold accept in rw (t, accept) k
  | inr f ↦ unfold accept in rw (f, accept) h
]

-- What is chosen is the best one so far or one of the candidates.
choose_lem :
    (P : Peer → Type 0) (now : ℕ) (path : List ℕ) (ps : List Peer) (best : Option Best)
    (r s : Router)
    → Follows r s
    → All P ps
    → Holds P best
    → Follows r (choose now path ps best s).1 × Holds P (choose now path ps best s).0
unfolding choose
choose_lem P now path [] best r s f h b = (f, b)
choose_lem P now path (p ∷ ps) best r s f h b =
    let s1 = (get_dist path p.key s).1 in
    let s2 = (get_cost now p s1).1 in
    let c : Best = record {
      peer = p;
      cost = (get_cost now p s1).0;
      dist = (get_dist path p.key s).0;
    } in
    let f1 = Follows-trans r s s1 f (get_dist-Follows path p.key s f.3) in
    let f2 = Follows-trans r s1 s2 f1 (get_cost-Follows now p s1 f1.3) in
    choose_lem P now path ps (some (accept best c)) r s2 f2 h.1 (accept-Holds P best c b h.0)

best_peer_lem :
    (now : ℕ) (path : List ℕ) (best : ℕ) (r s : Router)
    → Follows r s
    → IsFiled s.peers
    → (p : Peer) → (best_peer now path best s).0 ≡ some p
    → dist_of path r p.key < best
best_peer_lem now path best r s f filed p e =
    let found = candidates_lem path best s.peers r s f filed in
    let s1 = (candidates path best s.peers s).1 in
    let chosen =
      choose_lem (λ q. dist_of path r q.key < best) now path (candidates path best s.peers s).0 none
        r s1 found.0 found.1 tt in
    last _ chosen.1 (unfold best_peer in e)
  where
    last :
        (b : Option Best)
        → Holds (λ q. dist_of path r q.key < best) b
        → (elim b [ none ↦ none | some x ↦ some x.peer ]) ≡ some p
        → dist_of path r p.key < best
    last none h q = cc
    last (some x) h q = let same : x.peer ≡ p = cc q in rw (← same) h

module _ (now : ℕ) (path : List ℕ) (watermark : ℕ) (r : Router) where
  abbrev measured : ℕ × Router
  measured = get_dist path r.public_key r

  tree_lookup_near :
      ltb measured.0 watermark ≡ true
      → tree_lookup now path (some watermark) r ≡ (
        (best_peer now path measured.0 measured.1).0,
        (some measured.0, (best_peer now path measured.0 measured.1).1),
      )
  unfolding tree_lookup
  tree_lookup_near t = rw (t, tree_lookup)

  tree_lookup_far :
      ltb measured.0 watermark ≡ false
      → tree_lookup now path (some watermark) r ≡ (none, (some watermark, measured.1))
  unfolding tree_lookup
  tree_lookup_far t = rw (t, tree_lookup)

-- If `_lookup` with a watermark selects a peer, then the new watermark is the node's own distance
-- to the destination, which is below the old one, and the peer's node is closer than that, if the
-- cached paths are right and each peer is kept under its own key.
pub tree_lookup_closer :
    (now : ℕ) (path : List ℕ) (watermark : ℕ) (r : Router) (p : Peer)
    → IsCached r
    → IsFiled r.peers
    → (tree_lookup now path (some watermark) r).0 ≡ some p
    → ((tree_lookup now path (some watermark) r).1.0 ≡ some (dist_of path r r.public_key))
      × (dist_of path r r.public_key < watermark)
      × (dist_of path r p.key < dist_of path r r.public_key)
tree_lookup_closer now path watermark r p sound filed e =
    let d = get_dist path r.public_key r in
    let own = (get_dist_lem path r.public_key r sound).0 in
    let f = get_dist-Follows path r.public_key r sound in
    elim (Bool-cases (ltb d.0 watermark)) [
      | inl t ↦
          let near = tree_lookup_near now path watermark r t in
          let closer =
            best_peer_lem now path d.0 r d.1 f (rw (f.1) filed) p (sym (ap (λ x. x.0) near) ∙ e) in
          (
            ap (λ x. x.1.0) near ∙ ap some own,
            omega (arith, ltb→lt d.0 watermark t, own),
            omega (arith, closer, own),
          )
      | inr t ↦ let far = tree_lookup_far now path watermark r t in cc (ap (λ x. x.0) far, e)
    ]

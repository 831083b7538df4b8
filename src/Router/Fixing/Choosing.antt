-- ===== src/Router/Fixing/Choosing.antt =====
-- The parent that `_fix` of ironwood/network/router.go selects.
use yggdrasil_go.Base.{
  ℕ, ◌≡◌, refl, sym, ap, ◌∙◌, [], ◌∷◌, some, Bool, true, false, not, ◌&&◌, ◌||◌, ltb, Bool-cases,
  inl, inr, ◌⊎◌,
}
use yggdrasil_go.Binary.{Bytes}
use yggdrasil_go.Crypto.{equal, less}
use yggdrasil_go.Crypto.Order.{eq_of_equal, less_irrefl, less_trans, less_asymm}
use yggdrasil_go.Map.{Map, lookup, get, is_in, bytes_key, number_key}
use yggdrasil_go.Messages.RouterSigRes.{RouterSigRes}
use yggdrasil_go.Router.State.{Router, penalty_key}
use yggdrasil_go.Router.Forwarding.{max_uint64}
use yggdrasil_go.Router.Fixing.{
  Choice, times, root_and_dists, self_parent, choice_of, first_choice, better, can_be_parent,
  choose_round, choose_loop, choose_parent,
}
use yggdrasil_go.Router.Fixing.Stability.{
  SameTree, SameTree-refl, cheapest-SameTree, choose_round-SameTree, root_and_dists-SameTree,
  can_be_parent-SameTree, self_parent-SameTree,
}

-- A better choice is one of the two, and its root is not behind either.
better-cases :
    (r : Router) (best candidate : Choice)
    → ((better r best candidate ≡ best) × (less candidate.root best.root ≡ false))
      ⊎ ((better r best candidate ≡ candidate)
          × ((less candidate.root best.root ≡ true) ⊎ (candidate.root ≡ best.root)))
unfolding better
better-cases r best candidate = elim (Bool-cases (less candidate.root best.root)) [
  | inl first ↦ inr (
    elim (Bool-cases (
        (r.refresh && ltb (times candidate.cost 2) candidate.cost)
        || (not (equal candidate.parent (self_parent r)) && ltb candidate.cost candidate.cost))) [
          | inl again ↦ rw (first, again) refl
          | inr once ↦ rw (first, once) refl
        ],
    inl first,
  )
  | inr behind ↦ elim (Bool-cases (equal candidate.root best.root)) [
    | inr other ↦ inl (rw (behind, other) refl, behind)
    | inl same ↦
        elim (Bool-cases (
          (r.refresh && ltb (times candidate.cost 2) best.cost)
          || (not (equal best.parent (self_parent r)) && ltb candidate.cost best.cost))) [
            | inl switch ↦
                inr
                  (rw (behind, same, switch) refl, inr (eq_of_equal candidate.root best.root same))
            | inr stay ↦ inl (rw (behind, same, stay) refl, behind)
          ]
  ]
]

-- A root that is not before the best one is not before the better one.
better_not_worse :
    (x : Bytes) (r : Router) (best candidate : Choice)
    → less x best.root ≡ false
    → less x (better r best candidate).root ≡ false
better_not_worse x r best candidate h = elim (better-cases r best candidate) [
  | inl (stays, _) ↦ rw stays h
  | inr (taken, inr same) ↦ rw (taken, same) h
  | inr (taken, inl first) ↦ elim (Bool-cases (less x candidate.root)) [
    | inr behind ↦ rw taken behind
    | inl before ↦ cc (less_trans x candidate.root best.root before first, h)
  ]
]

better_covers :
    (r : Router) (best candidate : Choice)
    → less candidate.root (better r best candidate).root ≡ false
better_covers r best candidate = elim (better-cases r best candidate) [
  | inl (stays, behind) ↦ rw stays behind
  | inr (taken, _) ↦ rw taken (less_irrefl candidate.root)
]

-- The choice is one that leads to its root: this node itself, its present parent, or another node
-- whose way to the root is not by this one.
abbrev pub LeadsTo : Router → Choice → Type 0
LeadsTo r best =
    ((best.parent ≡ r.public_key) × (best.root ≡ r.public_key))
    ⊎ (((best.parent ≡ self_parent r) × (best.root ≡ (root_and_dists r.public_key r).0))
        ⊎ ((can_be_parent best.parent r ≡ true) × (best.root ≡ (root_and_dists best.parent r).0)))

LeadsTo-SameTree : (r s : Router) (best : Choice) → SameTree r s → LeadsTo s best → LeadsTo r best
LeadsTo-SameTree r s best same h = elim h [
  | inl (parent, root) ↦ inl (parent ∙ same.own, root ∙ same.own)
  | inr (inl (parent, root)) ↦ inr (
      inl (
        parent ∙ self_parent-SameTree r s same,
        root
            ∙ ap (λ z. (root_and_dists z s).0) same.own
            ∙ ap (λ z. z.0) (root_and_dists-SameTree r.public_key r s same),
      ))
  | inr (inr (can, root)) ↦ inr (
      inr (
        sym (can_be_parent-SameTree best.parent r s same) ∙ can,
        root ∙ ap (λ z. z.0) (root_and_dists-SameTree best.parent r s same),
      ))
]

LeadsTo-back : (r s : Router) (best : Choice) → SameTree r s → LeadsTo r best → LeadsTo s best
LeadsTo-back r s best same =
    LeadsTo-SameTree s r best
      (record { infos = sym same.infos; own = sym same.own; responses = sym same.responses })

module _ (now : ℕ) (pk : Bytes) (best : Choice) (r : Router) where
  round_not_worse :
      (x : Bytes) → less x best.root ≡ false → less x (choose_round now pk best r).0.root ≡ false
  unfolding choose_round
  round_not_worse x h = elim (Bool-cases (can_be_parent pk r)) [
    | inl can ↦ rw can (better_not_worse x r best (choice_of now pk r).0 h)
    | inr cannot ↦ rw cannot h
  ]

  round_covers :
      can_be_parent pk r ≡ true
      → less (root_and_dists pk r).0 (choose_round now pk best r).0.root ≡ false
  unfolding choose_round choice_of
  round_covers can = rw can (better_covers r best (choice_of now pk r).0)

  round-LeadsTo : LeadsTo r best → LeadsTo r (choose_round now pk best r).0
  unfolding choose_round choice_of
  round-LeadsTo h = elim (Bool-cases (can_be_parent pk r)) [
    | inr cannot ↦ rw cannot h
    | inl can ↦ elim (better-cases r best (choice_of now pk r).0) [
      | inl (stays, _) ↦ rw (can, stays) h
      | inr (taken, _) ↦ rw (can, taken) (inr (inr (can, refl)))
    ]
  ]

choose_loop_not_worse :
    (now : ℕ) (m : Map Bytes RouterSigRes) (best : Choice) (r : Router) (x : Bytes)
    → less x best.root ≡ false
    → less x (choose_loop now m best r).0.root ≡ false
unfolding choose_loop
choose_loop_not_worse now [] best r x h = h
choose_loop_not_worse now ((pk, res) ∷ more) best r x h =
    let next = choose_round now pk best r in
    choose_loop_not_worse now more next.0 next.1 x (round_not_worse now pk best r x h)

choose_loop_covers :
    (now : ℕ) (m : Map Bytes RouterSigRes) (best : Choice) (r : Router) (k : Bytes)
    (answer : RouterSigRes)
    → lookup k m ≡ some answer
    → can_be_parent k r ≡ true
    → less (root_and_dists k r).0 (choose_loop now m best r).0.root ≡ false
unfolding choose_loop lookup
choose_loop_covers now [] best r k answer found can = cc
choose_loop_covers now ((pk, res) ∷ more) best r k answer found can =
    let next = choose_round now pk best r in
    let same = choose_round-SameTree now pk best r in
    elim (Bool-cases (equal k pk)) [
      | inl here ↦
          let ek : pk ≡ k = sym (eq_of_equal k pk here) in
          let covered : less (root_and_dists k r).0 next.0.root ≡ false =
            ap (λ z. less (root_and_dists z r).0 next.0.root) (sym ek)
            ∙ round_covers now pk best r (ap (λ z. can_be_parent z r) ek ∙ can) in
          choose_loop_not_worse now more next.0 next.1 (root_and_dists k r).0 covered
      | inr later ↦
          ap (λ z. less z (choose_loop now more next.0 next.1).0.root)
            (sym (ap (λ z. z.0) (root_and_dists-SameTree k r next.1 same)))
          ∙ choose_loop_covers now more next.0 next.1 k answer (rw later at found)
              (can_be_parent-SameTree k r next.1 same ∙ can)
    ]

choose_loop-LeadsTo :
    (now : ℕ) (m : Map Bytes RouterSigRes) (best : Choice) (r : Router)
    → LeadsTo r best
    → LeadsTo r (choose_loop now m best r).0
unfolding choose_loop
choose_loop-LeadsTo now [] best r h = h
choose_loop-LeadsTo now ((pk, res) ∷ more) best r h =
    let next = choose_round now pk best r in
    let same = choose_round-SameTree now pk best r in
    LeadsTo-SameTree r next.1 (choose_loop now more next.0 next.1).0 same (
      choose_loop-LeadsTo now more next.0 next.1
        (LeadsTo-back r next.1 next.0 same (round-LeadsTo now pk best r h)))

and_right : (a b : Bool) → (a && b) ≡ true → b ≡ true
and_right true b h = h
and_right false b h = cc

first_choice_lem :
    (now : ℕ) (r : Router)
    → SameTree r (first_choice now r).1
      × (less r.public_key (first_choice now r).0.root ≡ false)
      × LeadsTo r (first_choice now r).0
unfolding first_choice
first_choice_lem now r =
    let (root, dists) = root_and_dists r.public_key r in
    elim (Bool-cases (is_in (self_parent r) r.peers && less root r.public_key)) [
      | inr stays ↦ rw stays (SameTree-refl r, less_irrefl r.public_key, inl (refl, refl))
      | inl leads ↦ rw leads (
        cheapest-SameTree now (get 0 root dists) (get [] (self_parent r) r.peers) max_uint64 r,
        less_asymm root r.public_key
            (and_right (is_in (self_parent r) r.peers) (less root r.public_key) leads),
        inr (inl (refl, refl)),
      )
    ]

-- No node that answered and can be a parent has a root before the one that is selected.
pub choose_parent_covers :
    (now : ℕ) (r : Router) (k : Bytes) (answer : RouterSigRes)
    → lookup k r.responses ≡ some answer
    → can_be_parent k r ≡ true
    → less (root_and_dists k r).0 (choose_parent now r).0.root ≡ false
unfolding choose_parent
choose_parent_covers now r k answer found can =
    let first = first_choice now r in
    let (same, _, _) = first_choice_lem now r in
    ap (λ z. less z (choose_loop now first.1.responses first.0 first.1).0.root)
      (sym (ap (λ z. z.0) (root_and_dists-SameTree k r first.1 same)))
    ∙ choose_loop_covers now first.1.responses first.0 first.1 k answer
        (ap (lookup k) same.responses ∙ found) (can_be_parent-SameTree k r first.1 same ∙ can)

-- Neither is the own key before it, and the selected parent leads to the selected root.
pub choose_parent_leads :
    (now : ℕ) (r : Router)
    → (less r.public_key (choose_parent now r).0.root ≡ false) × LeadsTo r (choose_parent now r).0
unfolding choose_parent
choose_parent_leads now r =
    let first = first_choice now r in
    let (same, not_worse, leads) = first_choice_lem now r in
    (
      choose_loop_not_worse now first.1.responses first.0 first.1 r.public_key not_worse,
      LeadsTo-SameTree r first.1 (choose_loop now first.1.responses first.0 first.1).0 same (
          choose_loop-LeadsTo now first.1.responses first.0 first.1
            (LeadsTo-back r first.1 first.0 same leads)),
    )

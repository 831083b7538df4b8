-- ===== src/Router/Fixing/Best.antt =====
-- The parent that `_fix` of ironwood/network/router.go selects, by the walks up the tree.
use yggdrasil_go.Base.{
  ℕ, ◌≡◌, refl, sym, ap, ◌∙◌, List, [], ◌∷◌, some, Bool, true, false, not, ◌&&◌, inl, inr, ◌⊎◌,
}
use yggdrasil_go.Binary.{Bytes}
use yggdrasil_go.Crypto.{less}
use yggdrasil_go.Map.{lookup, is_in, bytes_key}
use yggdrasil_go.Map.Laws.{is_in-lookup, is_in-none}
use yggdrasil_go.Messages.RouterSigRes.{RouterSigRes}
use yggdrasil_go.Router.State.{Router}
use yggdrasil_go.Router.Tree.{contains, backwards_ancestry}
use yggdrasil_go.Router.Tree.Ancestry.{IsAncestry, IsAncestry-unique, backwards_ancestry_lem}
use yggdrasil_go.Router.Tree.Dists.{last_or, is_in-numbered, get_root_and_dists_lem}
use yggdrasil_go.Router.Fixing.{
  Choice, zero_key, root_and_dists, self_parent, can_be_parent, choose_parent,
}
use yggdrasil_go.Router.Fixing.Choosing.{LeadsTo, choose_parent_covers, choose_parent_leads}

-- The walk up the tree from the node ends at `root`, and does not come by this node.
abbrev pub IsEligible : Router → Bytes → Bytes → Type 0
IsEligible r k root =
    (above : List Bytes) × IsAncestry r.infos [] k (k ∷ above)
    × (root ≡ last_or k above)
    × (contains (k ∷ above) r.public_key ≡ false)

-- The roots that this node can have: itself, and the end of the walk from a node that answered.
abbrev pub IsCandidate : Router → Bytes → Type 0
IsCandidate r root =
    (root ≡ r.public_key)
    ⊎ ((k : Bytes) × (answer : RouterSigRes) × (lookup k r.responses ≡ some answer)
        × IsEligible r k root)

-- The choice is this node as its own root, its present parent with the end of its own walk, or a
-- node whose walk ends at the root without coming by this node.
abbrev pub IsChoice : Router → Choice → Type 0
IsChoice r best =
    ((best.parent ≡ r.public_key) × (best.root ≡ r.public_key))
    ⊎ (((best.parent ≡ self_parent r)
          × ((keys : List Bytes) × IsAncestry r.infos [] r.public_key keys
              × (best.root ≡ last_or zero_key keys)))
        ⊎ IsEligible r best.parent best.root)

root_of-walk :
    (r : Router) (k : Bytes)
    → (root_and_dists k r).0 ≡ last_or zero_key (backwards_ancestry [] k r.infos)
unfolding root_and_dists
root_of-walk r k = ap (λ z. z.0) (get_root_and_dists_lem zero_key k r.infos)

passes-walk :
    (r : Router) (k : Bytes)
    → is_in r.public_key (root_and_dists k r).1
      ≡ contains (backwards_ancestry [] k r.infos) r.public_key
unfolding root_and_dists
passes-walk r k =
    ap (λ z. is_in r.public_key z.1) (get_root_and_dists_lem zero_key k r.infos)
    ∙ is_in-numbered 0 (backwards_ancestry [] k r.infos) r.public_key

walk_is :
    (r : Router) (k : Bytes) (keys : List Bytes)
    → IsAncestry r.infos [] k keys
    → backwards_ancestry [] k r.infos ≡ keys
walk_is r k keys w =
    IsAncestry-unique r.infos [] k (backwards_ancestry [] k r.infos) keys
      (backwards_ancestry_lem k r.infos) w

-- The test of the code is passed by exactly the eligible nodes.
IsEligible-can_be_parent :
    (r : Router) (k root : Bytes)
    → IsEligible r k root
    → (can_be_parent k r ≡ true) × ((root_and_dists k r).0 ≡ root)
unfolding can_be_parent
IsEligible-can_be_parent r k root (above, (info, e, f, p, w), end, apart) =
    let keys = walk_is r k (k ∷ above) (info, e, f, p, w) in
    let passes : is_in r.public_key (root_and_dists k r).1 ≡ false =
      passes-walk r k ∙ ap (λ z. contains z r.public_key) keys ∙ apart in
    (
      rw (is_in-lookup k r.infos e, passes) refl,
      root_of-walk r k ∙ ap (last_or zero_key) keys ∙ sym end,
    )

walk-IsEligible :
    (r : Router) (k : Bytes) (keys : List Bytes)
    → backwards_ancestry [] k r.infos ≡ keys
    → IsAncestry r.infos [] k keys
    → is_in k r.infos ≡ true
    → is_in r.public_key (root_and_dists k r).1 ≡ false
    → IsEligible r k (root_and_dists k r).0
unfolding contains
walk-IsEligible r k [] e (inl met) known apart = cc
walk-IsEligible r k [] e (inr unknown) known apart = cc (is_in-none k r.infos unknown, known)
walk-IsEligible r k (j ∷ above) e (info, found, f, p, w) known apart =
    let same : backwards_ancestry [] k r.infos ≡ k ∷ above = e ∙ ap (λ z. z ∷ above) p in
    (
      above,
      (info, found, f, refl, w),
      root_of-walk r k ∙ ap (last_or zero_key) same,
      ap (λ z. contains z r.public_key) (sym same) ∙ sym (passes-walk r k) ∙ apart,
    )

can-IsEligible :
    (r : Router) (k : Bytes) → can_be_parent k r ≡ true → IsEligible r k (root_and_dists k r).0
unfolding can_be_parent
can-IsEligible r k can =
    walk-IsEligible r k (backwards_ancestry [] k r.infos) refl (backwards_ancestry_lem k r.infos)
      (both (is_in k r.infos) _ can).0 (both (is_in k r.infos) _ can).1
  where
    both : (a c : Bool) → (a && not c) ≡ true → (a ≡ true) × (c ≡ false)
    both true true h = cc
    both true false h = (refl, refl)
    both false c h = cc

-- No root that this node can have is before the one that is selected: not its own key, and not the
-- end of the walk up the tree from a node that answered, where the walk does not come by this node.
-- The selected parent leads to the selected root: it is this node as its own root, the present
-- parent with the end of this node's own walk, or a node whose walk ends at the root and does not
-- come by this node.
pub choose_parent_best :
    (now : ℕ) (r : Router) (root : Bytes)
    → IsCandidate r root
    → (less root (choose_parent now r).0.root ≡ false) × IsChoice r (choose_parent now r).0
choose_parent_best now r root h =
    (covers h, leads (choose_parent now r).0 (choose_parent_leads now r).1)
  where
    covers : IsCandidate r root → less root (choose_parent now r).0.root ≡ false
    covers (inl own) = rw own (choose_parent_leads now r).0
    covers (inr (k, answer, found, eligible)) =
        let (can, same) = IsEligible-can_be_parent r k root eligible in
        rw (← same) (choose_parent_covers now r k answer found can)

    leads : (best : Choice) → LeadsTo r best → IsChoice r best
    leads best (inl own) = inl own
    leads best (inr (inl (parent, end))) = inr (
        inl (
          parent,
          (
            backwards_ancestry [] r.public_key r.infos,
            backwards_ancestry_lem r.public_key r.infos,
            end ∙ root_of-walk r r.public_key,
          ),
        ))
    leads best (inr (inr (can, end))) = inr (inr (rw end (can-IsEligible r best.parent can)))

-- ===== src/Router/Tree/Distance.antt =====
-- `_getDist` measures how far two nodes are from each other in the tree.
use yggdrasil_go.Base.{
  ℕ, suc, ◌+◌, ◌-◌, ◌*◌, ◌≤◌, ◌≡◌, ◌↔◌, refl, ap, List, [], ◌∷◌, ◌++◌, Bool-cases, inl, inr, ==_iff,
  ◌==◌, length, arith, if◌then◌else◌, min,
}
use yggdrasil_go.Router.Tree.{dist_loop}

-- The hops from one node up to the last common one and down to the other.
abbrev pub tree_dist : List ℕ → List ℕ → ℕ
tree_dist p q = dist_loop (length p + length q) p q

-- The number of ports that the paths have in common at the root's end.
unfoldable pub common : List ℕ → List ℕ → ℕ
common [] q = 0
common (x ∷ p) [] = 0
common (x ∷ p) (y ∷ q) = let rest = common p q in if x == y then suc rest else 0

common_le : (p q : List ℕ) → (common p q ≤ length p) × (common p q ≤ length q)
unfolding common
common_le [] q = omega arith
common_le (x ∷ p) [] = omega arith
common_le (x ∷ p) (y ∷ q) = ground (arith, common_le p q)

common_comm : (p q : List ℕ) → common p q ≡ common q p
unfolding common
common_comm [] [] = refl
common_comm [] (y ∷ q) = refl
common_comm (x ∷ p) [] = refl
common_comm (x ∷ p) (y ∷ q) = ground (arith, common_comm p q)

min-common : (p q s : List ℕ) → min (common p q) (common q s) ≤ common p s
unfolding common
min-common [] q s = ground arith
min-common (x ∷ p) [] s = ground arith
min-common (x ∷ p) (y ∷ q) [] = ground arith
min-common (x ∷ p) (y ∷ q) (z ∷ s) = ground (arith, min-common p q s)

common_all : (p q : List ℕ) → common p q ≡ length p → common p q ≡ length q → p ≡ q
unfolding common
common_all [] [] h k = refl
common_all [] (y ∷ q) h k = absurd (omega arith)
common_all (x ∷ p) [] h k = absurd (omega arith)
common_all (x ∷ p) (y ∷ q) h k = elim (Bool-cases (x == y)) [
  | inl e ↦ rw ((==_iff x y).0 e) (ap (◌∷◌ y) (common_all p q (ground arith) (ground arith)))
  | inr e ↦ absurd (ground arith)
]

common_refl : (p : List ℕ) → common p p ≡ length p
unfolding common
common_refl [] = refl
common_refl (x ∷ p) = ground (arith, common_refl p)

dist_loop-common :
    (dist : ℕ) (p q : List ℕ)
    → length p + length q ≤ dist
    → dist_loop dist p q + 2 * common p q ≡ dist
unfolding dist_loop common
dist_loop-common dist [] q h = omega arith
dist_loop-common dist (x ∷ p) [] h = omega arith
dist_loop-common dist (x ∷ p) (y ∷ q) h = elim (Bool-cases (x == y)) [
  | inl e ↦ rw e (omega (arith, dist_loop-common (dist - 2) p q (omega arith)))
  | inr e ↦ rw e (omega arith)
]

tree_dist-common : (p q : List ℕ) → tree_dist p q + 2 * common p q ≡ length p + length q
tree_dist-common p q = dist_loop-common (length p + length q) p q (omega arith)

common_child : (p : List ℕ) (x : ℕ) → common p (p ++ (x ∷ [])) ≡ length p
unfolding common
common_child [] x = refl
common_child (y ∷ p) x = ground (arith, common_child p x)

length_child : (p : List ℕ) (x : ℕ) → length (p ++ (x ∷ [])) ≡ suc (length p)
length_child [] x = refl
length_child (y ∷ p) x = ap suc (length_child p x)

-- The distance is a metric on paths: 0 exactly between equal paths, symmetric, and with the
-- triangle inequality. A node and its child are at distance 1.
pub tree_dist_metric :
    (p q s : List ℕ) (x : ℕ)
    → ((tree_dist p q ≡ 0) ↔ (p ≡ q))
      × (tree_dist p q ≡ tree_dist q p)
      × (tree_dist p s ≤ tree_dist p q + tree_dist q s)
      × (tree_dist p (p ++ (x ∷ [])) ≡ 1)
tree_dist_metric p q s x = (
  (
    λ e.
        common_all p q (omega (arith, common_le p q, tree_dist-common p q, e))
          (omega (arith, common_le p q, tree_dist-common p q, e)),
    λ e. rw e (omega (arith, tree_dist-common q q, common_refl q)),
  ),
  omega (arith, tree_dist-common p q, tree_dist-common q p, common_comm p q),
  ground (
    arith,
    tree_dist-common p q,
    tree_dist-common q s,
    tree_dist-common p s,
    min-common p q s,
    common_le p q,
    common_le q s,
  ),
  omega (arith, tree_dist-common p (p ++ (x ∷ [])), common_child p x, length_child p x),
)

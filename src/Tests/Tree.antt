-- ===== src/Tests/Tree.antt =====
-- Walks up a tree of three nodes and a forwarded packet.
use yggdrasil_go.Base.{ℕ, ◌+◌, ◌<◌, ◌≤◌, ◌≡◌, ◌↔◌, ◌⊎◌, refl, List, [], ◌∷◌, ◌++◌, some, true, All}
use yggdrasil_go.Binary.{Bytes}
use yggdrasil_go.Crypto.{equal}
use yggdrasil_go.Map.{Map, lookup, insert, is_in, get, bytes_key, number_key}
use yggdrasil_go.Messages.RouterAnnounce.{RouterInfo}
use yggdrasil_go.Router.State.{Router, penalty_key}
use yggdrasil_go.Router.Infos.{info_of, update, timer_fired}
use yggdrasil_go.Router.Penalties.{get_cost, get_decayed_penalty}
use yggdrasil_go.Router.Tree.{
  reverse, path_loop, get_root_and_path, get_root_and_dists, backwards_ancestry, get_ancestry,
  ancestry_loop, contains, dist_loop, get_dist,
}
use yggdrasil_go.Router.Tree.Paths.{IsRoute, get_root_and_path_lem}
use yggdrasil_go.Router.Tree.Ancestry.{IsAncestry, backwards_ancestry_lem, get_ancestry_known}
use yggdrasil_go.Router.Tree.Dists.{last_or, numbered, get_root_and_dists_lem}
use yggdrasil_go.Router.Tree.Distance.{tree_dist, tree_dist_metric}
use yggdrasil_go.Router.Tree.Caching.{path_of, IsCached, cache_transparent}
use yggdrasil_go.Router.Forwarding.{candidates, choose, accept, best_peer, tree_lookup}
use yggdrasil_go.Router.Forwarding.Progress.{dist_of, tree_lookup_closer}
use yggdrasil_go.Tests.Data.{key_of, peer_of, announcement, small_router}

-- Node 1 is the root, 2 its child, and 3 the child of 2.
abbrev pub tree : Map Bytes RouterInfo
tree =
    (key_of 1, info_of (announcement 1 1 4))
    ∷ (key_of 2, info_of (announcement 2 1 6))
    ∷ (key_of 3, info_of (announcement 3 2 7))
    ∷ []

abbrev pub in_tree : Router
in_tree = record small_router { infos = tree }

abbrev to_3 : List ℕ
to_3 = 5 ∷ 5 ∷ []

route_to_3 : get_root_and_path (key_of 3) tree ≡ (key_of 1, to_3)
unfolding get_root_and_path path_loop lookup insert is_in equal reverse info_of
route_to_3 = refl

get_root_and_path_lem_example :
    ((ps : List ℕ) (root : Bytes)
      → IsRoute tree (key_of 3) ps root
      → get_root_and_path (key_of 3) tree ≡ (root, reverse ps))
    × ((get_root_and_path (key_of 3) tree ≡ (key_of 3, []))
        ⊎ ((ps : List ℕ) × (root : Bytes) × IsRoute tree (key_of 3) ps root
            × (get_root_and_path (key_of 3) tree ≡ (root, reverse ps))))
get_root_and_path_lem_example = get_root_and_path_lem (key_of 3) tree

backwards_ancestry_lem_example :
    IsAncestry tree [] (key_of 3) (backwards_ancestry [] (key_of 3) tree)
backwards_ancestry_lem_example = backwards_ancestry_lem (key_of 3) tree

get_ancestry_known_example : All (λ k. is_in k tree ≡ true) (get_ancestry (key_of 3) tree)
get_ancestry_known_example = get_ancestry_known (key_of 3) tree

ancestry_of_3 : get_ancestry (key_of 3) tree ≡ key_of 1 ∷ key_of 2 ∷ key_of 3 ∷ []
unfolding get_ancestry backwards_ancestry ancestry_loop contains lookup equal reverse info_of
ancestry_of_3 = refl

get_root_and_dists_lem_example : get_root_and_dists [] (key_of 3) tree ≡ (
  last_or [] (backwards_ancestry [] (key_of 3) tree),
  numbered 0 (backwards_ancestry [] (key_of 3) tree),
)
get_root_and_dists_lem_example = get_root_and_dists_lem [] (key_of 3) tree

tree_dist_metric_example :
    ((tree_dist to_3 (5 ∷ []) ≡ 0) ↔ (to_3 ≡ 5 ∷ []))
    × (tree_dist to_3 (5 ∷ []) ≡ tree_dist (5 ∷ []) to_3)
    × (tree_dist to_3 (4 ∷ []) ≤ tree_dist to_3 (5 ∷ []) + tree_dist (5 ∷ []) (4 ∷ []))
    × (tree_dist to_3 (to_3 ++ (9 ∷ [])) ≡ 1)
tree_dist_metric_example = tree_dist_metric to_3 (5 ∷ []) (4 ∷ []) 9

in_tree-IsCached : IsCached in_tree
unfolding lookup
in_tree-IsCached key path found = cc

cache_transparent_example :
    ((get_dist to_3 (key_of 2) in_tree).0 ≡ tree_dist (path_of (key_of 2) in_tree) to_3)
    × IsCached (get_dist to_3 (key_of 2) in_tree).1
    × IsCached (update (announcement 3 1 8) in_tree).1
    × IsCached (timer_fired (key_of 2) 3 in_tree)
cache_transparent_example =
    cache_transparent to_3 (key_of 2) (announcement 3 1 8) 3 in_tree in_tree-IsCached

forwarded : (tree_lookup 5000 to_3 (some 9) in_tree).0 ≡ some (peer_of 2)
unfolding tree_lookup get_dist get_root_and_path path_loop lookup insert is_in equal reverse info_of
    dist_loop best_peer candidates choose accept get_cost get get_decayed_penalty
forwarded = refl

tree_lookup_closer_example :
    ((tree_lookup 5000 to_3 (some 9) in_tree).1.0 ≡ some (dist_of to_3 in_tree (key_of 1)))
    × (dist_of to_3 in_tree (key_of 1) < 9)
    × (dist_of to_3 in_tree (key_of 2) < dist_of to_3 in_tree (key_of 1))
tree_lookup_closer_example =
    tree_lookup_closer 5000 to_3 9 in_tree (peer_of 2) in_tree-IsCached ((refl, tt), tt) forwarded

-- ===== src/Tests/Fixing.antt =====
-- A node that has an answer from a peer with a better root.
use yggdrasil_go.Base.{◌≡◌, refl, [], ◌∷◌, false, inl, inr}
use yggdrasil_go.Crypto.{equal, less}
use yggdrasil_go.Map.{lookup, insert, is_in, get, bytes_key, number_key}
use yggdrasil_go.Router.State.{Router, penalty_key}
use yggdrasil_go.Router.Infos.{info_of}
use yggdrasil_go.Router.Tree.{get_root_and_dists, dists_loop, contains}
use yggdrasil_go.Router.Penalties.{get_cost, get_decayed_penalty}
use yggdrasil_go.Router.Fixing.{
  root_and_dists, can_be_parent, choose_parent, first_choice, choose_loop, choose_round, choice_of,
  cheapest, better, self_parent,
}
use yggdrasil_go.Router.Fixing.Best.{IsEligible, IsChoice, choose_parent_best}
use yggdrasil_go.Tests.Data.{key_of, announcement, response, small_router}

abbrev node_3 : Router
node_3 = record small_router {
  public_key = key_of 3;
  infos =
      (key_of 1, info_of (announcement 1 1 4))
      ∷ (key_of 2, info_of (announcement 2 1 6))
      ∷ (key_of 3, info_of (announcement 3 3 7))
      ∷ [];
  responses = (key_of 2, response 8 5) ∷ [];
}

chosen : (choose_parent 0 node_3).0.root ≡ key_of 1
unfolding choose_parent first_choice choose_loop choose_round choice_of cheapest better self_parent
    can_be_parent root_and_dists get_root_and_dists dists_loop lookup insert is_in get equal less
    info_of get_cost get_decayed_penalty
chosen = refl

-- Node 1 is its own parent, and node 3 is not above node 2.
above_2 : IsEligible node_3 (key_of 2) (key_of 1)
unfolding contains lookup equal info_of
above_2 = (
  key_of 1 ∷ [],
  (
    info_of (announcement 2 1 6),
    refl,
    refl,
    refl,
    (info_of (announcement 1 1 4), refl, refl, refl, inl refl),
  ),
  refl,
  refl,
)

choose_parent_best_example :
    (less (key_of 1) (choose_parent 0 node_3).0.root ≡ false)
    × IsChoice node_3 (choose_parent 0 node_3).0
unfolding lookup equal
choose_parent_best_example =
    choose_parent_best 0 node_3 (key_of 1) (inr (key_of 2, response 8 5, refl, above_2))

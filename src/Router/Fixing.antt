-- ===== src/Router/Fixing.antt =====
-- ironwood/network/router.go: `_fix`, which selects the parent of this node in the tree, and
-- `_doMaintenance`, while the timer of the router runs. `none` is a panic.
pub mod Stability
pub mod Choosing
pub mod Best
use yggdrasil_go.Base.{
  ℕ, ◌*◌, ◌%◌, ◌^◌, List, [], ◌∷◌, Option, none, some, Bool, true, false, not, ◌&&◌, ◌||◌, ltb,
  if◌then◌else◌, ◌>>=◌, replicate,
}
use yggdrasil_go.Binary.{Bytes}
use yggdrasil_go.Crypto.{equal, less}
use yggdrasil_go.Map.{Map, lookup, get, is_in, bytes_key, number_key}
use yggdrasil_go.Messages.RouterSigRes.{RouterSigRes}
use yggdrasil_go.Messages.RouterAnnounce.{RouterInfo}
use yggdrasil_go.Router.State.{Router, Peer, bloom_maintenance}
use yggdrasil_go.Router.Infos.{reset_cache, send}
use yggdrasil_go.Router.Penalties.{get_cost}
use yggdrasil_go.Router.Tree.{get_root_and_dists}
use yggdrasil_go.Router.Forwarding.{max_uint64}
use yggdrasil_go.Router.Requests.{become_root, use_response, send_reqs}
use yggdrasil_go.Router.Announcing.{update_ancestries, send_announces}

-- bestRoot, bestParent and bestCost.
pub record Choice : Type 0 where
  pub root : Bytes
  pub parent : Bytes
  pub cost : ℕ

-- The product of two uint64s.
abbrev times : ℕ → ℕ → ℕ
times a b = a * b % 2 ^ 64

abbrev pub zero_key : Bytes
zero_key = replicate 32 0

unfoldable pub root_and_dists : Bytes → Router → Bytes × Map Bytes ℕ
root_and_dists key r = get_root_and_dists zero_key key r.infos

-- `self.parent`
unfoldable pub self_parent : Router → Bytes
self_parent r = elim (lookup r.public_key r.infos) [ none ↦ zero_key | some info ↦ info.parent ]

-- The loop over the links to a node: the lowest cost of the way to the root, `dist` steps away.
unfoldable pub cheapest : ℕ → ℕ → Map ℕ Peer → ℕ → Router → ℕ × Router
cheapest now dist [] cost r = (cost, r)
cheapest now dist ((i, p) ∷ ps) cost r =
    let (link_cost, r1) = get_cost now p r in
    let c = times dist link_cost in cheapest now dist ps (if ltb c cost then c else cost) r1

-- The root by way of the node, with the node as the parent.
unfoldable pub choice_of : ℕ → Bytes → Router → Choice × Router
unfolding root_and_dists cheapest
choice_of now pk r =
    let (root, dists) = root_and_dists pk r in
    let (cost, r1) = cheapest now (get 0 root dists) (get [] pk r.peers) max_uint64 r in
    (record { root = root; parent = pk; cost = cost }, r1)

-- The choice before the loop: the current parent, where it leads to a better root than this node.
unfoldable pub first_choice : ℕ → Router → Choice × Router
unfolding root_and_dists cheapest self_parent
first_choice now r =
    let self : Choice = record { root = r.public_key; parent = r.public_key; cost = max_uint64 } in
    let (root, dists) = root_and_dists r.public_key r in
    let (cost, r1) =
      cheapest now (get 0 root dists) (get [] (self_parent r) r.peers) max_uint64 r in
    if is_in (self_parent r) r.peers && less root r.public_key
    then (record { root = root; parent = self_parent r; cost = cost }, r1)
    else (self, r)

-- The end of a round of the loop: whether the candidate takes the place of the best choice.
unfoldable pub better : Router → Choice → Choice → Choice
better r best candidate =
    let first = less candidate.root best.root in
    let best1 = if first then candidate else best in
    let switch =
      (r.refresh && ltb (times candidate.cost 2) best1.cost)
      || (not (equal best1.parent (self_parent r)) && ltb candidate.cost best1.cost) in
    if not first && not (equal candidate.root best.root)
    then best
    else if switch
    then candidate
    else best1

-- Whether the node can be a parent: its place is known, and its way to the root is not by this one.
unfoldable pub can_be_parent : Bytes → Router → Bool
unfolding root_and_dists
can_be_parent pk r = is_in pk r.infos && not (is_in r.public_key (root_and_dists pk r).1)

unfoldable pub choose_round : ℕ → Bytes → Choice → Router → Choice × Router
unfolding can_be_parent choice_of better
choose_round now pk best r =
    let (candidate, r1) = choice_of now pk r in
    if can_be_parent pk r then (better r best candidate, r1) else (best, r)

-- The loop over the responses.
unfoldable pub choose_loop : ℕ → Map Bytes RouterSigRes → Choice → Router → Choice × Router
unfolding choose_round
choose_loop now [] best r = (best, r)
choose_loop now ((pk, res) ∷ more) best r =
    let (best1, r1) = choose_round now pk best r in choose_loop now more best1 r1

unfoldable pub choose_parent : ℕ → Router → Choice × Router
unfolding first_choice choose_loop
choose_parent now r = let (best, r1) = first_choice now r in choose_loop now r1.responses best r1

-- The end of the first two cases of the `switch`.
unfoldable pub settle : (ℕ → ℕ) → ℕ → Router → Router
settle random now r =
    send_reqs random now (record r { refresh = false; do_root1 = false; do_root2 = false })

-- The cases of the `switch` without a response of the parent.
unfoldable pub self_root :
    (ℕ → ℕ) → (Bytes → Bytes) → (Bytes → Bytes → Bytes → Bool) → ℕ → Router → Option Router
unfolding settle
self_root random sign_with verify now r =
    if r.do_root2
    then (become_root random sign_with verify r >>= λ rooted.
        if rooted.0 then some (settle random now rooted.1) else none)
    else if not r.do_root1
    then some (record r { do_root1 = true })
    else some r

-- The `switch`.
unfoldable pub take_parent :
    (ℕ → ℕ) → (Bytes → Bytes) → (Bytes → Bytes → Bytes → Bool) → ℕ → Choice → Router → Option Router
unfolding settle self_root
take_parent random sign_with verify now best r = elim (lookup best.parent r.responses) [
  | none ↦ self_root random sign_with verify now r
  | some res ↦
      if equal best.root r.public_key
      then self_root random sign_with verify now r
      else (use_response sign_with best.parent res r >>= λ used.
          if used.0
          then some (settle random now used.1)
          else self_root random sign_with verify now used.1)
]

unfoldable pub fix :
    (ℕ → ℕ) → (Bytes → Bytes) → (Bytes → Bytes → Bytes → Bool) → ℕ → Router → Option Router
unfolding choose_parent take_parent
fix random sign_with verify now r =
    let (best, r1) = choose_parent now r in
    let due =
      r.refresh || (r.do_root1 || (r.do_root2 || not (equal (self_parent r) best.parent))) in
    if due then take_parent random sign_with verify now best r1 else some r1

unfoldable pub do_maintenance :
    (ℕ → ℕ) → (Bytes → Bytes) → (Bytes → Bytes → Bytes → Bool) → ℕ → Router → Option Router
unfolding fix
do_maintenance random sign_with verify now r =
    fix random sign_with verify now
      (update_ancestries (reset_cache (record r { do_root2 = r.do_root2 || r.do_root1 })))
    >>= λ r1. send_announces r1 >>= λ r2. some (send bloom_maintenance r2)

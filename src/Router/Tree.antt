-- ===== src/Router/Tree.antt =====
-- The part of ironwood/network/router.go that walks up the tree and measures distances in it:
-- `_getRootAndPath`, `_getRootAndDists`, `_getAncestry` and `_getDist`. A round of each of the
-- loops adds a key of `r.infos` to the visited ones, so a round for each entry and one more is
-- enough.
pub mod Walks
pub mod Paths
pub mod Ancestry
pub mod Dists
pub mod Distance
pub mod Caching
use yggdrasil_go.Base.{
  ℕ, zero, suc, ◌+◌, ◌-◌, List, [], ◌∷◌, ◌++◌, none, some, Bool, true, false, ◌||◌, ◌==◌, length,
  if◌then◌else◌,
}
use yggdrasil_go.Binary.{Bytes}
use yggdrasil_go.Crypto.{equal}
use yggdrasil_go.Map.{Map, SetOf, lookup, insert, is_in, bytes_key}
use yggdrasil_go.Messages.RouterAnnounce.{RouterInfo}
use yggdrasil_go.Router.State.{Router}

-- The swapping of left and right until they meet.
unfoldable pub reverse {ℓ} : {A : Type ℓ} → List A → List A
reverse [] = []
reverse (x ∷ xs) = reverse xs ++ (x ∷ [])

-- The `for` loop of `_getRootAndPath`.
unfoldable pub path_loop :
    ℕ → Map Bytes RouterInfo → Bytes → SetOf Bytes → Bytes → List ℕ → Bytes × List ℕ
path_loop zero infos dest visited next ports = (dest, [])
path_loop (suc fuel) infos dest visited next ports = elim (is_in next visited) [
  | true ↦ (dest, [])
  | false ↦ elim (lookup next infos) [
    | none ↦ (dest, [])
    | some info ↦ elim (equal next info.parent) [
      | true ↦ (next, reverse ports)
      | false ↦
          path_loop fuel infos dest (insert next tt visited) info.parent (ports ++ (info.port ∷ []))
    ]
  ]
]

unfoldable pub get_root_and_path : Bytes → Map Bytes RouterInfo → Bytes × List ℕ
get_root_and_path dest infos = path_loop (suc (length infos)) infos dest [] dest []

-- The `for` loop of `_getRootAndDists`. `root` is the zero key before the first round.
unfoldable pub dists_loop :
    ℕ → Map Bytes RouterInfo → Bytes → Map Bytes ℕ → Bytes → ℕ → Bytes × Map Bytes ℕ
dists_loop zero infos root dists next dist = (root, dists)
dists_loop (suc fuel) infos root dists next dist = elim (is_in next dists) [
  | true ↦ (root, dists)
  | false ↦ elim (lookup next infos) [
    | none ↦ (root, dists)
    | some info ↦ dists_loop fuel infos next (insert next dist dists) info.parent (dist + 1)
  ]
]

unfoldable pub get_root_and_dists : Bytes → Bytes → Map Bytes RouterInfo → Bytes × Map Bytes ℕ
get_root_and_dists zero_key dest infos = dists_loop (suc (length infos)) infos zero_key [] dest 0

-- Whether a key of `anc` is `here`.
unfoldable pub contains : List Bytes → Bytes → Bool
contains [] here = false
contains (k ∷ anc) here = equal k here || contains anc here

-- The outer `for` loop of `_backwardsAncestry`.
unfoldable pub ancestry_loop : ℕ → Map Bytes RouterInfo → List Bytes → Bytes → List Bytes
ancestry_loop zero infos anc here = anc
ancestry_loop (suc fuel) infos anc here = elim (contains anc here) [
  | true ↦ anc
  | false ↦ elim (lookup here infos) [
    | none ↦ anc
    | some info ↦ ancestry_loop fuel infos (anc ++ (here ∷ [])) info.parent
  ]
]

unfoldable pub backwards_ancestry : List Bytes → Bytes → Map Bytes RouterInfo → List Bytes
backwards_ancestry anc key infos = ancestry_loop (suc (length infos)) infos anc key

unfoldable pub get_ancestry : Bytes → Map Bytes RouterInfo → List Bytes
get_ancestry key infos = reverse (backwards_ancestry [] key infos)

-- The `for` loop of `_getDist`, over the ports that both paths have. `dist` is 2 at least where 2
-- is taken off it, since it counts the ports that are left of both.
unfoldable pub dist_loop : ℕ → List ℕ → List ℕ → ℕ
dist_loop dist [] dest_path = dist
dist_loop dist (k ∷ key_path) [] = dist
dist_loop dist (k ∷ key_path) (d ∷ dest_path) =
    let rest = dist_loop (dist - 2) key_path dest_path in if k == d then rest else dist

unfoldable pub get_dist : List ℕ → Bytes → Router → ℕ × Router
get_dist dest_path key r =
    let measure : List ℕ → ℕ =
      λ key_path. dist_loop (length key_path + length dest_path) key_path dest_path in
    elim (lookup key r.cache) [
      | some key_path ↦ (measure key_path, r)
      | none ↦
          let key_path = (get_root_and_path key r.infos).1 in
          (measure key_path, record r { cache = insert key key_path r.cache })
    ]

-- ===== src/Router/Tree/Caching.antt =====
-- The cached paths are the paths of what is stored.
use yggdrasil_go.Base.{
  ℕ, ◌≡◌, refl, sym, ◌∙◌, List, [], Option, none, some, Bool-cases, Option-cases, inl, inr, arith,
  ◌==◌,
}
use yggdrasil_go.Binary.{Bytes}
use yggdrasil_go.Crypto.{equal}
use yggdrasil_go.Map.{lookup, insert, bytes_key, bytes_same_iff}
use yggdrasil_go.Map.Laws.{lookup-insert}
use yggdrasil_go.Messages.RouterAnnounce.{RouterAnnounce}
use yggdrasil_go.Router.State.{Router}
use yggdrasil_go.Router.Infos.{update, save, accepts, reset_cache, timer_fired}
use yggdrasil_go.Router.Tree.{get_root_and_path, get_dist}
use yggdrasil_go.Router.Tree.Distance.{tree_dist}

-- The path of a node from its root, by what the router has stored.
abbrev pub path_of : Bytes → Router → List ℕ
path_of key r = (get_root_and_path key r.infos).1

abbrev pub IsCached : Router → Type 0
IsCached r = (key : Bytes) (path : List ℕ) → lookup key r.cache ≡ some path → path ≡ path_of key r

-- `get_dist` computes the distance and changes nothing but the cache.
pub get_dist_lem :
    (path : List ℕ) (key : Bytes) (r : Router)
    → IsCached r
    → ((get_dist path key r).0 ≡ tree_dist (path_of key r) path)
      × IsCached (get_dist path key r).1
      × ((get_dist path key r).1 ≡ record r { cache = (get_dist path key r).1.cache })
get_dist_lem path key r sound = elim (Option-cases (lookup key r.cache)) [
  | inl e ↦ unfold get_dist in rw (e, get_dist) (refl, inserted, refl)
  | inr (p, e) ↦ unfold get_dist in rw (e, get_dist) (rw (sound key p e) refl, sound, refl)
]
  where
    inserted :
        (k : Bytes) (p : List ℕ)
        → lookup k (insert key (path_of key r) r.cache) ≡ some p
        → p ≡ path_of k r
    inserted k p found = elim (Bool-cases (equal k key)) [
      | inl s ↦
          let known = lookup-insert key k (path_of key r) r.cache in
          let same = (bytes_same_iff k key).0 s in rw same (ground (arith, known, found, s))
      | inr s ↦ sound k p (sym (lookup-insert key k (path_of key r) r.cache ∙ rw s) ∙ found)
    ]

empty-IsCached : (r : Router) → r.cache ≡ [] → IsCached r
unfolding lookup
empty-IsCached r e key path found = cc (e, found)

save-IsCached : (ann : RouterAnnounce) (r : Router) → IsCached (save ann r)
unfolding save reset_cache
save-IsCached ann r = empty-IsCached (save ann r) refl

lookup_empty : (key : Bytes) → ◌≡◌ {A = Option (List ℕ)} (lookup key []) none
unfolding lookup
lookup_empty key = refl

update-IsCached : (ann : RouterAnnounce) (r : Router) → IsCached r → IsCached (update ann r).1
update-IsCached ann r sound = elim (Option-cases (lookup ann.key r.infos)) [
  | inl e ↦ unfold update in rw (e, update) (save-IsCached ann r)
  | inr (info, e) ↦ elim (Bool-cases (accepts info ann)) [
    | inl t ↦ unfold update in rw (e, update) (rw t (save-IsCached ann r))
    | inr f ↦ unfold update in rw (e, update) (rw f sound)
  ]
]

timer_fired-IsCached :
    (key : Bytes) (timer : ℕ) (r : Router) → IsCached r → IsCached (timer_fired key timer r)
timer_fired-IsCached key timer r sound = elim (Option-cases (lookup key r.timers)) [
  | inl e ↦ unfold timer_fired in rw (e, timer_fired) sound
  | inr (t, e) ↦ elim (Bool-cases (t == timer)) [
    | inr f ↦ unfold timer_fired in rw (e, timer_fired) (rw f sound)
    | inl s ↦ elim (Bool-cases (equal key r.public_key)) [
      | inl own ↦ unfold timer_fired in rw (e, timer_fired) (rw s (rw own sound))
      | inr other ↦
          unfold timer_fired reset_cache in
          rw (e, timer_fired) (rw s (rw other (λ k p found. cc (found, lookup_empty k))))
    ]
  ]
]

-- If the cached paths are right, `_getDist` returns the distance in the tree of what is stored, and
-- the cached paths are right afterwards, as they are after `_update` and after a timer has fired.
pub cache_transparent :
    (path : List ℕ) (key : Bytes) (ann : RouterAnnounce) (timer : ℕ) (r : Router)
    → IsCached r
    → ((get_dist path key r).0 ≡ tree_dist (path_of key r) path)
      × IsCached (get_dist path key r).1
      × IsCached (update ann r).1
      × IsCached (timer_fired key timer r)
cache_transparent path key ann timer r sound =
    let (dist, kept, _) = get_dist_lem path key r sound in
    (dist, kept, update-IsCached ann r sound, timer_fired-IsCached key timer r sound)

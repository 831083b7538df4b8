-- ===== src/Router/Tree/Paths.antt =====
-- `_getRootAndPath` finds the route to the root wherever there is one, and its loop ends.
use yggdrasil_go.Base.{
  ℕ, zero, suc, ◌<◌, ◌≡◌, ◌≢◌, refl, sym, ◌∙◌, ap, List, [], ◌∷◌, ◌++◌, append_assoc, append-nil,
  none, some, Bool, true, false, Bool-cases, Option-cases, inl, inr, ◌⊎◌, length, arith,
  if◌then◌else◌,
}
use yggdrasil_go.Binary.{Bytes}
use yggdrasil_go.Crypto.{equal}
use yggdrasil_go.Map.{Map, SetOf, lookup, insert, is_in, bytes_key, bytes_same_iff}
use yggdrasil_go.Map.Laws.{is_in-insert, same_refl, same_ne}
use yggdrasil_go.Messages.RouterAnnounce.{RouterInfo}
use yggdrasil_go.Router.Tree.{reverse, path_loop, get_root_and_path}
use yggdrasil_go.Router.Tree.Walks.{fresh, fresh_lt, fresh_le-length}

-- The hops from a node to a root, the node's own first: each node is known, the parent of the last
-- one is itself, and the ports are those that the parents assigned.
abbrev pub IsRoute : Map Bytes RouterInfo → Bytes → List ℕ → Bytes → Type 0
IsRoute infos key [] root =
    (info : RouterInfo) × (lookup key infos ≡ some info) × (info.parent ≡ key) × (root ≡ key)
IsRoute infos key (p ∷ ps) root =
    (info : RouterInfo) × (lookup key infos ≡ some info)
    × (info.parent ≢ key)
    × (p ≡ info.port)
    × IsRoute infos info.parent ps root

abbrev in_set : SetOf Bytes → Bytes → Bool
in_set visited k = is_in k visited

visit-fresh :
    (infos : Map Bytes RouterInfo) (visited : SetOf Bytes) (next : Bytes) (info : RouterInfo)
    → is_in next visited ≡ false
    → lookup next infos ≡ some info
    → fresh (in_set (insert next tt visited)) infos < fresh (in_set visited) infos
visit-fresh infos visited next info f e =
    fresh_lt (in_set visited) (in_set (insert next tt visited)) next infos e f
      (is_in-insert next next tt visited ∙ rw (same_refl next))
      (λ k h. is_in-insert next k tt visited ∙ grow k h)
  where
    grow :
        (k : Bytes)
        → is_in k visited ≡ true
        → (if equal k next then true else is_in k visited) ≡ true
    grow k h = ground arith

parent-equal : (key : Bytes) (info : RouterInfo) → info.parent ≢ key → equal key info.parent ≡ false
parent-equal key info h = same_ne key info.parent (λ e. h (sym e))

route-length :
    (infos : Map Bytes RouterInfo) (key root root' : Bytes) (ps qs : List ℕ)
    → IsRoute infos key ps root
    → IsRoute infos key qs root'
    → length ps ≡ length qs
route-length infos key root root' [] [] a b = refl
route-length infos key root root' [] (q ∷ qs) (i, e, p, _) (j, d, n, _, _) =
    absurd (n (cc (e, d, p)))
route-length infos key root root' (p ∷ ps) [] (i, e, n, _, _) (j, d, q, _) =
    absurd (n (cc (e, d, q)))
route-length infos key root root' (p ∷ ps) (q ∷ qs) (i, e, n, _, more) (j, d, m, _, more') =
    let same : j ≡ i = cc (e, d) in
    ap suc (route-length infos i.parent root root' ps qs more (rw (← same) more'))

-- Each visited key is further from the root than the next one.
abbrev IsDeeper : Map Bytes RouterInfo → SetOf Bytes → ℕ → Type 0
IsDeeper infos visited n =
    (v : Bytes)
    → is_in v visited ≡ true
    → (qs : List ℕ) × (root : Bytes) × IsRoute infos v qs root × (n < length qs)

-- One round of the loop, by its cases.
module _ (fuel : ℕ) (infos : Map Bytes RouterInfo) (dest : Bytes) (visited : SetOf Bytes)
    (next : Bytes) (ports : List ℕ) where
  round_again :
      is_in next visited ≡ true → path_loop (suc fuel) infos dest visited next ports ≡ (dest, [])
  unfolding path_loop
  round_again f = rw (f, path_loop)

  round_unknown :
      is_in next visited ≡ false
      → lookup next infos ≡ none
      → path_loop (suc fuel) infos dest visited next ports ≡ (dest, [])
  unfolding path_loop
  round_unknown f e = rw (f, path_loop) (rw e)

  round_root :
      {info : RouterInfo}
      → is_in next visited ≡ false
      → lookup next infos ≡ some info
      → equal next info.parent ≡ true
      → path_loop (suc fuel) infos dest visited next ports ≡ (next, reverse ports)
  unfolding path_loop
  round_root f e s = rw (f, path_loop) (rw e (rw s))

  round_up :
      {info : RouterInfo}
      → is_in next visited ≡ false
      → lookup next infos ≡ some info
      → equal next info.parent ≡ false
      → path_loop (suc fuel) infos dest visited next ports
        ≡ path_loop fuel infos dest (insert next tt visited) info.parent (ports ++ (info.port ∷ []))
  unfolding path_loop
  round_up f e s = rw (f, path_loop) (rw e (rw s))

not_visited :
    (infos : Map Bytes RouterInfo) (visited : SetOf Bytes) (next root : Bytes) (ps : List ℕ)
    → IsRoute infos next ps root
    → IsDeeper infos visited (length ps)
    → is_in next visited ≡ false
not_visited infos visited next root ps route deeper = elim (Bool-cases (is_in next visited)) [
  | inl t ↦
      let (qs, root', other, longer) = deeper next t in
      absurd (omega (arith, route-length infos next root root' ps qs route other, longer))
  | inr f ↦ f
]

insert-IsDeeper :
    (infos : Map Bytes RouterInfo) (visited : SetOf Bytes) (next root : Bytes) (n : ℕ) (ps : List ℕ)
    → IsRoute infos next ps root
    → length ps ≡ suc n
    → IsDeeper infos visited (suc n)
    → IsDeeper infos (insert next tt visited) n
insert-IsDeeper infos visited next root n ps route l deeper v t = elim (Bool-cases (equal v next)) [
  | inl s ↦ rw ((bytes_same_iff v next).0 s) (ps, root, route, omega arith)
  | inr s ↦
      let (qs, root', other, longer) = deeper v (sym (is_in-insert next v tt visited ∙ rw s) ∙ t) in
      (qs, root', other, omega (arith, longer))
]

follow :
    (fuel : ℕ) (infos : Map Bytes RouterInfo) (dest : Bytes) (visited : SetOf Bytes)
    (next root : Bytes) (ports ps : List ℕ)
    → IsRoute infos next ps root
    → IsDeeper infos visited (length ps)
    → fresh (in_set visited) infos < fuel
    → path_loop fuel infos dest visited next ports ≡ (root, reverse (ports ++ ps))
follow zero infos dest visited next root ports ps route deeper h = absurd (omega arith)
follow (suc fuel) infos dest visited next root ports [] (info, e, p, q) deeper h =
    let f = not_visited infos visited next root [] (info, e, p, q) deeper in
    round_root fuel infos dest visited next ports f e (rw p (same_refl next))
    ∙ rw (q, append-nil ports)
follow (suc fuel) infos dest visited next root ports (x ∷ xs) (info, e, n, q, more) deeper h =
    let f = not_visited infos visited next root (x ∷ xs) (info, e, n, q, more) deeper in
    let below =
      insert-IsDeeper infos visited next root (length xs) (x ∷ xs) (info, e, n, q, more) refl
        deeper in
    round_up fuel infos dest visited next ports f e (parent-equal next info n)
    ∙ follow fuel infos dest (insert next tt visited) info.parent root (ports ++ (info.port ∷ []))
        xs more below (omega (arith, visit-fresh infos visited next info f e, h))
    ∙ rw (append_assoc ports (info.port ∷ []) xs, q)

-- What the loop returns where it does not give up is a route.
found-IsRoute :
    (fuel : ℕ) (infos : Map Bytes RouterInfo) (dest : Bytes) (visited : SetOf Bytes) (next : Bytes)
    (ports : List ℕ)
    → (path_loop fuel infos dest visited next ports ≡ (dest, []))
      ⊎ ((ps : List ℕ) × (root : Bytes) × IsRoute infos next ps root
          × (path_loop fuel infos dest visited next ports ≡ (root, reverse (ports ++ ps))))
found-IsRoute zero infos dest visited next ports = inl (unfold path_loop in refl)
found-IsRoute (suc fuel) infos dest visited next ports = elim (Bool-cases (is_in next visited)) [
  | inl t ↦ inl (round_again fuel infos dest visited next ports t)
  | inr f ↦ elim (Option-cases (lookup next infos)) [
    | inl e ↦ inl (round_unknown fuel infos dest visited next ports f e)
    | inr (info, e) ↦ elim (Bool-cases (equal next info.parent)) [
      | inl s ↦
          let p = (bytes_same_iff next info.parent).0 s in
          inr (
            [],
            next,
            (info, e, sym p, refl),
            round_root fuel infos dest visited next ports f e s ∙ rw (append-nil ports),
          )
      | inr s ↦
          let n : info.parent ≢ next = λ p. cc (s, same_refl next, p) in
          let up = round_up fuel infos dest visited next ports f e s in
          elim (found-IsRoute fuel infos dest (insert next tt visited) info.parent
            (ports ++ (info.port ∷ []))) [
              | inl gave_up ↦ inl (up ∙ gave_up)
              | inr (ps, root, route, result) ↦ inr (
                info.port ∷ ps,
                root,
                (info, e, n, refl, route),
                up ∙ result ∙ rw (append_assoc ports (info.port ∷ []) ps),
              )
            ]
    ]
  ]
]

start-IsDeeper : (infos : Map Bytes RouterInfo) (n : ℕ) → IsDeeper infos [] n
unfolding is_in lookup
start-IsDeeper infos n v t = cc

-- Where there is a route from a node up to a root, `_getRootAndPath` returns the root and the ports
-- from the root down, whatever the loops in the rest of the map. Where it returns anything but the
-- node itself and no ports, there is a route.
pub get_root_and_path_lem :
    (dest : Bytes) (infos : Map Bytes RouterInfo)
    → ((ps : List ℕ) (root : Bytes)
        → IsRoute infos dest ps root
        → get_root_and_path dest infos ≡ (root, reverse ps))
      × ((get_root_and_path dest infos ≡ (dest, []))
          ⊎ ((ps : List ℕ) × (root : Bytes) × IsRoute infos dest ps root
              × (get_root_and_path dest infos ≡ (root, reverse ps))))
unfolding get_root_and_path
get_root_and_path_lem dest infos = (
  λ ps root route.
      follow (suc (length infos)) infos dest [] dest root [] ps route
        (start-IsDeeper infos (length ps)) (omega (arith, fresh_le-length (in_set []) infos)),
  found-IsRoute (suc (length infos)) infos dest [] dest [],
)

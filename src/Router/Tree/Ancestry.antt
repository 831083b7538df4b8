-- ===== src/Router/Tree/Ancestry.antt =====
-- `_backwardsAncestry` and `_getRootAndDists` walk up in the same way, and both loops end.
use yggdrasil_go.Base.{
  ℕ, zero, suc, ◌<◌, ◌≡◌, refl, sym, ◌∙◌, List, [], ◌∷◌, ◌++◌, append_assoc, append-nil, none, some,
  true, false, ◌||◌, Bool-cases, Option-cases, inl, inr, ◌⊎◌, length, All, All-append, arith,
  some_eq, ap,
}
use yggdrasil_go.Binary.{Bytes}
use yggdrasil_go.Map.{Map, lookup, is_in, bytes_key}
use yggdrasil_go.Map.Laws.{same_refl, is_in-lookup}
use yggdrasil_go.Messages.RouterAnnounce.{RouterInfo}
use yggdrasil_go.Router.Tree.{reverse, contains, ancestry_loop, backwards_ancestry, get_ancestry}
use yggdrasil_go.Router.Tree.Walks.{fresh, fresh_lt, fresh_le-length}

-- The keys that a walk up from `here` adds to those seen: it goes from a known node to its parent,
-- and it ends at a key that was seen or at a node that is not known.
abbrev pub IsAncestry : Map Bytes RouterInfo → List Bytes → Bytes → List Bytes → Type 0
IsAncestry infos seen here [] = (contains seen here ≡ true) ⊎ (lookup here infos ≡ none)
IsAncestry infos seen here (k ∷ ks) =
    (info : RouterInfo) × (lookup here infos ≡ some info)
    × (contains seen here ≡ false)
    × (k ≡ here)
    × IsAncestry infos (seen ++ (here ∷ [])) info.parent ks

contains-append :
    (xs ys : List Bytes) (k : Bytes) → contains (xs ++ ys) k ≡ (contains xs k || contains ys k)
unfolding contains
contains-append [] ys k = refl
contains-append (x ∷ xs) ys k = ground (arith, contains-append xs ys k)

contains_snoc : (xs : List Bytes) (k : Bytes) → contains (xs ++ (k ∷ [])) k ≡ true
contains_snoc xs k = contains-append xs (k ∷ []) k ∙ last
  where
    last : (contains xs k || contains (k ∷ []) k) ≡ true
    last = unfold contains in ground (arith, same_refl k)

contains_more :
    (xs ys : List Bytes) (k : Bytes) → contains xs k ≡ true → contains (xs ++ ys) k ≡ true
contains_more xs ys k h = contains-append xs ys k ∙ rw h

module _ (fuel : ℕ) (infos : Map Bytes RouterInfo) (anc : List Bytes) (here : Bytes) where
  round_seen : contains anc here ≡ true → ancestry_loop (suc fuel) infos anc here ≡ anc
  unfolding ancestry_loop
  round_seen f = rw (f, ancestry_loop)

  round_end :
      contains anc here ≡ false
      → lookup here infos ≡ none
      → ancestry_loop (suc fuel) infos anc here ≡ anc
  unfolding ancestry_loop
  round_end f e = rw (f, ancestry_loop) (rw e)

  round_up :
      {info : RouterInfo}
      → contains anc here ≡ false
      → lookup here infos ≡ some info
      → ancestry_loop (suc fuel) infos anc here
        ≡ ancestry_loop fuel infos (anc ++ (here ∷ [])) info.parent
  unfolding ancestry_loop
  round_up f e = rw (f, ancestry_loop) (rw e)

pub visit-fresh :
    (infos : Map Bytes RouterInfo) (anc : List Bytes) (here : Bytes) {info : RouterInfo}
    → contains anc here ≡ false
    → lookup here infos ≡ some info
    → fresh (contains (anc ++ (here ∷ []))) infos < fresh (contains anc) infos
visit-fresh infos anc here f e =
    fresh_lt (contains anc) (contains (anc ++ (here ∷ []))) here infos e f (contains_snoc anc here)
      (contains_more anc (here ∷ []))

ancestry_loop_lem :
    (fuel : ℕ) (infos : Map Bytes RouterInfo) (anc : List Bytes) (here : Bytes)
    → fresh (contains anc) infos < fuel
    → (keys : List Bytes) × (ancestry_loop fuel infos anc here ≡ anc ++ keys)
      × IsAncestry infos anc here keys
ancestry_loop_lem zero infos anc here h = absurd (omega arith)
ancestry_loop_lem (suc fuel) infos anc here h = elim (Bool-cases (contains anc here)) [
  | inl t ↦ ([], round_seen fuel infos anc here t ∙ sym (append-nil anc), inl t)
  | inr f ↦ elim (Option-cases (lookup here infos)) [
    | inl e ↦ ([], round_end fuel infos anc here f e ∙ sym (append-nil anc), inr e)
    | inr (info, e) ↦
        let (keys, result, walk) =
          ancestry_loop_lem fuel infos (anc ++ (here ∷ [])) info.parent
            (omega (arith, visit-fresh infos anc here f e, h)) in
        (
          here ∷ keys,
          round_up fuel infos anc here f e ∙ result ∙ append_assoc anc (here ∷ []) keys,
          (info, e, f, refl, walk),
        )
  ]
]

-- `_backwardsAncestry` walks up from the node until it meets a node that it has met before or that
-- is not known, and returns the known nodes in that order.
pub backwards_ancestry_lem :
    (key : Bytes) (infos : Map Bytes RouterInfo)
    → IsAncestry infos [] key (backwards_ancestry [] key infos)
unfolding backwards_ancestry
backwards_ancestry_lem key infos =
    let (keys, result, walk) =
      ancestry_loop_lem (suc (length infos)) infos [] key
        (omega (arith, fresh_le-length (contains []) infos)) in
    rw result walk

-- There is one such walk.
pub IsAncestry-unique :
    (infos : Map Bytes RouterInfo) (seen : List Bytes) (here : Bytes) (ks js : List Bytes)
    → IsAncestry infos seen here ks
    → IsAncestry infos seen here js
    → ks ≡ js
IsAncestry-unique infos seen here [] [] v w = refl
IsAncestry-unique infos seen here [] (j ∷ js) (inl met) (info, e, f, p, w) = cc
IsAncestry-unique infos seen here [] (j ∷ js) (inr unknown) (info, e, f, p, w) = cc
IsAncestry-unique infos seen here (k ∷ ks) [] (info, e, f, p, v) (inl met) = cc
IsAncestry-unique infos seen here (k ∷ ks) [] (info, e, f, p, v) (inr unknown) = cc
IsAncestry-unique infos seen here (k ∷ ks) (j ∷ js) (info, e, f, p, v) (other, e', f', q, w) =
    let up : other.parent ≡ info.parent = ap RouterInfo.parent (some_eq (sym e' ∙ e)) in
    let rest : ks ≡ js =
      IsAncestry-unique infos (seen ++ (here ∷ [])) info.parent ks js v (rw up at w) in
    cc

walk_known :
    (infos : Map Bytes RouterInfo) (seen : List Bytes) (here : Bytes) (keys : List Bytes)
    → IsAncestry infos seen here keys
    → All (λ k. is_in k infos ≡ true) keys
walk_known infos seen here [] w = tt
walk_known infos seen here (k ∷ ks) (info, e, f, p, w) =
    (rw p (is_in-lookup here infos e), walk_known infos (seen ++ (here ∷ [])) info.parent ks w)

All-reverse : (P : Bytes → Type 0) (xs : List Bytes) → All P xs → All P (reverse xs)
unfolding reverse
All-reverse P [] h = tt
All-reverse P (x ∷ xs) h = All-append P (reverse xs) (x ∷ []) (All-reverse P xs h.1) (h.0, tt)

-- All that `_getAncestry` returns is stored.
pub get_ancestry_known :
    (key : Bytes) (infos : Map Bytes RouterInfo)
    → All (λ k. is_in k infos ≡ true) (get_ancestry key infos)
unfolding get_ancestry
get_ancestry_known key infos =
    All-reverse _ _ (walk_known infos [] key _ (backwards_ancestry_lem key infos))

-- ===== src/Router/Tree/Dists.antt =====
-- `_getRootAndDists` numbers the nodes that `_backwardsAncestry` returns.
use yggdrasil_go.Base.{
  ℕ, zero, suc, ◌+◌, ◌<◌, ◌≡◌, refl, sym, ◌∙◌, ap, List, [], ◌∷◌, ◌++◌, append_assoc, append-nil,
  none, some, true, false, Bool-cases, inl, inr, length, length-append, arith, if◌then◌else◌,
}
use yggdrasil_go.Binary.{Bytes}
use yggdrasil_go.Crypto.{equal}
use yggdrasil_go.Crypto.Order.{equal_refl, eq_of_equal}
use yggdrasil_go.Map.{Map, lookup, insert, is_in, bytes_key}
use yggdrasil_go.Map.Laws.{same_ne, is_in_cons}
use yggdrasil_go.Messages.RouterAnnounce.{RouterInfo}
use yggdrasil_go.Router.Tree.{contains, backwards_ancestry, dists_loop, get_root_and_dists}
use yggdrasil_go.Router.Tree.Walks.{fresh, fresh_le-length}
use yggdrasil_go.Router.Tree.Ancestry.{IsAncestry, backwards_ancestry_lem, visit-fresh}

-- The keys with their positions from `n` on.
abbrev pub numbered : ℕ → List Bytes → Map Bytes ℕ
numbered n [] = []
numbered n (k ∷ ks) = (k, n) ∷ numbered (n + 1) ks

-- The last key, or `k` where there is none.
abbrev pub last_or : Bytes → List Bytes → Bytes
last_or k [] = k
last_or k (x ∷ ks) = last_or x ks

numbered-append :
    (n : ℕ) (xs ys : List Bytes)
    → numbered n (xs ++ ys) ≡ numbered n xs ++ numbered (n + length xs) ys
numbered-append n [] ys = ap (λ i. numbered i ys) (omega arith)
numbered-append n (x ∷ xs) ys =
    ap (◌∷◌ (x, n))
      (numbered-append (n + 1) xs ys ∙ ap (λ i. numbered (n + 1) xs ++ numbered i ys) (omega arith))

equal_comm : (a b : Bytes) → equal a b ≡ equal b a
equal_comm a b = elim (Bool-cases (equal a b)) [
  | inl e ↦ rw (eq_of_equal a b e)
  | inr e ↦ e ∙ sym (same_ne b a (λ p. cc (e, p, equal_refl a)))
]

contains_cons :
    (x : Bytes) (xs : List Bytes) (k : Bytes)
    → contains (x ∷ xs) k ≡ (if equal x k then true else contains xs k)
unfolding contains
contains_cons x xs k = ground arith

numbered_snoc :
    (xs : List Bytes) (k : Bytes)
    → numbered 0 (xs ++ (k ∷ [])) ≡ numbered 0 xs ++ ((k, length xs) ∷ [])
numbered_snoc xs k =
    numbered-append 0 xs (k ∷ []) ∙ ap (λ i. numbered 0 xs ++ ((k, i) ∷ [])) (omega arith)

pub is_in-numbered : (n : ℕ) (xs : List Bytes) (k : Bytes) → is_in k (numbered n xs) ≡ contains xs k
is_in-numbered n [] k = unfold is_in lookup contains in refl
is_in-numbered n (x ∷ xs) k =
    is_in_cons k x n (numbered (n + 1) xs)
    ∙ ground (arith, is_in-numbered (n + 1) xs k, equal_comm k x, contains_cons x xs k)

insert_fresh :
    (k : Bytes) (v : ℕ) (m : Map Bytes ℕ) → is_in k m ≡ false → insert k v m ≡ m ++ ((k, v) ∷ [])
unfolding insert
insert_fresh k v [] f = refl
insert_fresh k v ((b, w) ∷ m) f = elim (Bool-cases (equal k b)) [
  | inl e ↦ absurd (ground (arith, is_in_cons k b w m))
  | inr e ↦ rw e (ap (◌∷◌ (b, w)) (insert_fresh k v m (ground (arith, is_in_cons k b w m))))
]

module _ (fuel : ℕ) (infos : Map Bytes RouterInfo) (root : Bytes) (dists : Map Bytes ℕ)
    (next : Bytes) (dist : ℕ) where
  round_seen :
      is_in next dists ≡ true → dists_loop (suc fuel) infos root dists next dist ≡ (root, dists)
  unfolding dists_loop
  round_seen f = rw (f, dists_loop)

  round_end :
      is_in next dists ≡ false
      → lookup next infos ≡ none
      → dists_loop (suc fuel) infos root dists next dist ≡ (root, dists)
  unfolding dists_loop
  round_end f e = rw (f, dists_loop) (rw e)

  round_up :
      {info : RouterInfo}
      → is_in next dists ≡ false
      → lookup next infos ≡ some info
      → dists_loop (suc fuel) infos root dists next dist
        ≡ dists_loop fuel infos next (insert next dist dists) info.parent (dist + 1)
  unfolding dists_loop
  round_up f e = rw (f, dists_loop) (rw e)

dists_follow :
    (fuel : ℕ) (infos : Map Bytes RouterInfo) (root : Bytes) (seen : List Bytes) (next : Bytes)
    (keys : List Bytes)
    → IsAncestry infos seen next keys
    → fresh (contains seen) infos < fuel
    → dists_loop fuel infos root (numbered 0 seen) next (length seen)
      ≡ (last_or root keys, numbered 0 (seen ++ keys))
dists_follow zero infos root seen next keys w h = absurd (omega arith)
dists_follow (suc fuel) infos root seen next [] (inl t) h =
    round_seen fuel infos root (numbered 0 seen) next (length seen) (is_in-numbered 0 seen next ∙ t)
    ∙ rw (append-nil seen)
dists_follow (suc fuel) infos root seen next [] (inr e) h = elim (Bool-cases (contains seen next)) [
  | inl t ↦
      round_seen fuel infos root (numbered 0 seen) next (length seen)
        (is_in-numbered 0 seen next ∙ t)
      ∙ rw (append-nil seen)
  | inr f ↦
      round_end fuel infos root (numbered 0 seen) next (length seen)
        (is_in-numbered 0 seen next ∙ f) e
      ∙ rw (append-nil seen)
]
dists_follow (suc fuel) infos root seen next (k ∷ ks) (info, e, f, p, w) h =
    let absent = is_in-numbered 0 seen next ∙ f in
    round_up fuel infos root (numbered 0 seen) next (length seen) absent e
    ∙ ap (λ m. dists_loop fuel infos next m info.parent (length seen + 1))
        (insert_fresh next (length seen) (numbered 0 seen) absent ∙ sym (numbered_snoc seen next))
    ∙ ap (dists_loop fuel infos next (numbered 0 (seen ++ (next ∷ []))) info.parent)
        (sym (length-append seen (next ∷ [])))
    ∙ dists_follow fuel infos next (seen ++ (next ∷ [])) info.parent ks w
        (omega (arith, visit-fresh infos seen next f e, h))
    ∙ rw (append_assoc seen (next ∷ []) ks, p)

-- `_getRootAndDists` returns the last of the nodes that `_backwardsAncestry` returns, or the zero
-- key where there is none, and those nodes with their positions.
pub get_root_and_dists_lem :
    (zero_key dest : Bytes) (infos : Map Bytes RouterInfo)
    → get_root_and_dists zero_key dest infos ≡ (
      last_or zero_key (backwards_ancestry [] dest infos),
      numbered 0 (backwards_ancestry [] dest infos),
    )
unfolding get_root_and_dists
get_root_and_dists_lem zero_key dest infos =
    dists_follow (suc (length infos)) infos zero_key [] dest (backwards_ancestry [] dest infos)
      (backwards_ancestry_lem dest infos) (omega (arith, fresh_le-length (contains []) infos))

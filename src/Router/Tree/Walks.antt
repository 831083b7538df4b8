-- ===== src/Router/Tree/Walks.antt =====
-- The keys that a walk up the tree has not visited become fewer with each round.
use yggdrasil_go.Base.{
  ℕ, ◌+◌, ◌≤◌, ◌<◌, ◌≡◌, [], ◌∷◌, some, Bool, true, false, Bool-cases, inl, inr, if◌then◌else◌,
  length, arith,
}
use yggdrasil_go.Binary.{Bytes}
use yggdrasil_go.Map.{Map, lookup, bytes_key, bytes_same_iff}
use yggdrasil_go.Crypto.{equal}
use yggdrasil_go.Messages.RouterAnnounce.{RouterInfo}

-- The number of entries whose key is not among the visited ones.
abbrev pub fresh : (Bytes → Bool) → Map Bytes RouterInfo → ℕ
fresh visited [] = 0
fresh visited ((k, i) ∷ m) = (if visited k then 0 else 1) + fresh visited m

abbrev pub Extends : (Bytes → Bool) → (Bytes → Bool) → Type 0
Extends p q = (k : Bytes) → p k ≡ true → q k ≡ true

pub fresh_le-length :
    (visited : Bytes → Bool) (m : Map Bytes RouterInfo) → fresh visited m ≤ length m
fresh_le-length visited [] = omega arith
fresh_le-length visited ((k, i) ∷ m) = ground (arith, fresh_le-length visited m)

fresh_anti : (p q : Bytes → Bool) (m : Map Bytes RouterInfo) → Extends p q → fresh q m ≤ fresh p m
fresh_anti p q [] h = omega arith
fresh_anti p q ((k, i) ∷ m) h = ground (arith, h k, fresh_anti p q m h)

pub fresh_lt :
    (p q : Bytes → Bool) (next : Bytes) (m : Map Bytes RouterInfo) {info : RouterInfo}
    → lookup next m ≡ some info
    → p next ≡ false
    → q next ≡ true
    → Extends p q
    → fresh q m < fresh p m
unfolding lookup
fresh_lt p q next [] e f t h = cc
fresh_lt p q next ((k, i) ∷ m) {info} e f t h = elim (Bool-cases (equal next k)) [
  | inl s ↦
      let same : next ≡ k = (bytes_same_iff next k).0 s in
      rw (← same, f, t) (omega (arith, fresh_anti p q m h))
  | inr s ↦ ground (arith, h k, fresh_lt p q next m {info = info} (ground arith) f t h)
]

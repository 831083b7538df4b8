-- ===== src/Router/Infos/Convergence.antt =====
-- The entry that a sequence of announcements leaves for a key.
use yggdrasil_go.Base.{
  ◌≡◌, ◌≢◌, ◌∙◌, sym, ap, refl, inl, inr, List, [], ◌∷◌, Option, none, some, if◌then◌else◌,
  Bool-cases, Option-cases, arith, All,
}
use mathlib.Core.List.{Perm, Permᴰ}
use mathlib.Core.Logic.{∥∥₁_elim}
use yggdrasil_go.Binary.{Bytes}
use yggdrasil_go.Crypto.Order.{eq_of_equal}
use yggdrasil_go.Crypto.{IsPublicKey, equal}
use yggdrasil_go.Map.{lookup, bytes_key, bytes_same_iff}
use yggdrasil_go.Map.Laws.{lookup-insert_self, lookup-insert_ne, same_refl}
use yggdrasil_go.Messages.RouterAnnounce.{RouterAnnounce, RouterInfo}
use yggdrasil_go.Router.State.{Router}
use yggdrasil_go.Router.Infos.{accepts, info_of, update, save}
use yggdrasil_go.Router.Infos.Order.{accepts-newer, newer_asymm, newer_total, newer_trans}

-- What is stored under an announcement's key after `_update`.
unfoldable pub merge : Option RouterInfo → RouterAnnounce → Option RouterInfo
merge none ann = some (info_of ann)
merge (some info) ann = if accepts info ann then some (info_of ann) else some info

pub lookup-update_self :
    (ann : RouterAnnounce) (r : Router)
    → lookup ann.key (update ann r).1.infos ≡ merge (lookup ann.key r.infos) ann
lookup-update_self ann r = elim (Option-cases (lookup ann.key r.infos)) [
  | inl e ↦ unfold update save merge in rw (e, update) (lookup-insert_self ann.key _ r.infos)
  | inr (info, e) ↦ elim (Bool-cases (accepts info ann)) [
    | inl t ↦
        unfold update save merge in rw (e, update) (rw t (lookup-insert_self ann.key _ r.infos))
    | inr f ↦ unfold update merge in rw (e, update) (rw f e)
  ]
]

lookup-update_ne :
    (key : Bytes) (ann : RouterAnnounce) (r : Router)
    → key ≢ ann.key
    → lookup key (update ann r).1.infos ≡ lookup key r.infos
lookup-update_ne key ann r h = elim (Option-cases (lookup ann.key r.infos)) [
  | inl e ↦ unfold update save in rw (e, update) (lookup-insert_ne ann.key key _ r.infos h)
  | inr (info, e) ↦ elim (Bool-cases (accepts info ann)) [
    | inl t ↦ unfold update save in rw (e, update) (rw t (lookup-insert_ne ann.key key _ r.infos h))
    | inr f ↦ unfold update in rw (e, update) (rw f)
  ]
]

pub lookup-update :
    (key : Bytes) (ann : RouterAnnounce) (r : Router)
    → lookup key (update ann r).1.infos
      ≡ (if equal key ann.key then merge (lookup key r.infos) ann else lookup key r.infos)
unfolding merge
lookup-update key ann r = elim (Bool-cases (equal key ann.key)) [
  | inl e ↦ rw e (rw ((bytes_same_iff key ann.key).0 e) (lookup-update_self ann r))
  | inr e ↦ rw e (lookup-update_ne key ann r (λ p. cc (e, p, same_refl key)))
]

pub merge-some :
    (o : Option RouterInfo) (ann : RouterAnnounce) → (i : RouterInfo) × (merge o ann ≡ some i)
unfolding merge
merge-some none ann = (info_of ann, refl)
merge-some (some i) ann = elim (Bool-cases (accepts i ann)) [
  | inl t ↦ (info_of ann, rw t)
  | inr f ↦ (i, rw f)
]

-- Two announcements that `_update` cannot tell apart say the same.
abbrev pub IsConsistent : RouterAnnounce → RouterAnnounce → Type 0
IsConsistent a b = a.seq ≡ b.seq → a.parent ≡ b.parent → a.nonce ≡ b.nonce → info_of a ≡ info_of b

merge_comm :
    (o : Option RouterInfo) (a b : RouterAnnounce)
    → ((info : RouterInfo) → o ≡ some info → IsPublicKey info.parent)
    → IsPublicKey a.parent
    → IsPublicKey b.parent
    → IsConsistent a b
    → merge (merge o a) b ≡ merge (merge o b) a
unfolding merge info_of
merge_comm none a b ho ha hb c = ground (
  arith,
  accepts-newer (info_of a) b,
  accepts-newer (info_of b) a,
  newer_asymm a.seq a.parent a.nonce b.seq b.parent b.nonce,
  newer_total a.seq a.parent a.nonce b.seq b.parent b.nonce (ha ∙ sym hb),
  c,
)
merge_comm (some i) a b ho ha hb c =
    let hi : IsPublicKey i.parent = ho i refl in
    ground (
      arith,
      accepts-newer i a,
      accepts-newer i b,
      accepts-newer (info_of a) b,
      accepts-newer (info_of b) a,
      newer_asymm a.seq a.parent a.nonce b.seq b.parent b.nonce,
      newer_total a.seq a.parent a.nonce b.seq b.parent b.nonce (ha ∙ sym hb),
      c,
      newer_trans i.seq i.parent i.nonce a.seq a.parent a.nonce b.seq b.parent b.nonce (hi ∙ sym ha)
          (ha ∙ sym hb),
      newer_trans i.seq i.parent i.nonce b.seq b.parent b.nonce a.seq a.parent a.nonce (hi ∙ sym hb)
          (hb ∙ sym ha),
    )

-- What is stored under `key` once the announcements have arrived in this order.
merges : Bytes → List RouterAnnounce → Option RouterInfo → Option RouterInfo
merges key [] o = o
merges key (a ∷ xs) o = merges key xs (if equal key a.key then merge o a else o)

unfoldable pub updates : List RouterAnnounce → Router → Router
updates [] r = r
updates (a ∷ xs) r = updates xs (update a r).1

lookup-updates :
    (key : Bytes) (xs : List RouterAnnounce) (r : Router)
    → lookup key (updates xs r).infos ≡ merges key xs (lookup key r.infos)
unfolding merges updates
lookup-updates key [] r = refl
lookup-updates key (a ∷ xs) r =
    lookup-updates key xs (update a r).1 ∙ ap (merges key xs) (lookup-update key a r)

-- The parents that are stored are public keys.
abbrev pub IsKeyed : Option RouterInfo → Type 0
IsKeyed o = (info : RouterInfo) → o ≡ some info → IsPublicKey info.parent

merge-IsKeyed :
    (o : Option RouterInfo) (a : RouterAnnounce)
    → IsPublicKey a.parent
    → IsKeyed o
    → IsKeyed (merge o a)
unfolding merge info_of
merge-IsKeyed none a h k info e = ground arith
merge-IsKeyed (some i) a h k info e = let ki : IsPublicKey i.parent = k i refl in ground arith

step-IsKeyed :
    (key : Bytes) (o : Option RouterInfo) (a : RouterAnnounce)
    → IsPublicKey a.parent
    → IsKeyed o
    → IsKeyed (if equal key a.key then merge o a else o)
step-IsKeyed key o a h k = elim (Bool-cases (equal key a.key)) [
  | inl e ↦ rw e (merge-IsKeyed o a h k)
  | inr e ↦ rw e k
]

Option_info_set : IsSet (Option RouterInfo)
Option_info_set = hlevel

-- `Genuine` singles out announcements of which no two with the same key, sequence number, parent
-- and nonce differ.
module _ (Genuine : RouterAnnounce → Type 0)
    (consistent : (a b : RouterAnnounce) → Genuine a → Genuine b → a.key ≡ b.key → IsConsistent a b)
    (key : Bytes) where
  abbrev IsSound : RouterAnnounce → Type 0
  IsSound a = Genuine a × IsPublicKey a.parent

  swap_step :
      (a b : RouterAnnounce) (o : Option RouterInfo)
      → IsSound a
      → IsSound b
      → IsKeyed o
      → (if equal key b.key
          then merge (if equal key a.key then merge o a else o) b
          else if equal key a.key
          then merge o a
          else o)
        ≡ (if equal key a.key
            then merge (if equal key b.key then merge o b else o) a
            else if equal key b.key
            then merge o b
            else o)
  swap_step a b o (ga, pa) (gb, pb) k = elim (Bool-cases (equal key a.key)) [
    | inl e ↦ elim (Bool-cases (equal key b.key)) [
      | inl d ↦
          rw (e, d)
            (merge_comm o a b k pa pb
              (consistent a b ga gb (sym (eq_of_equal key a.key e) ∙ eq_of_equal key b.key d)))
      | inr d ↦ rw (e, d)
    ]
    | inr e ↦ rw e
  ]

  merges-perm :
      {xs ys : List RouterAnnounce}
      → Permᴰ xs ys
      → (o : Option RouterInfo) → All IsSound xs
      → IsKeyed o
      → All IsSound ys × (merges key xs o ≡ merges key ys o)
  unfolding merges
  merges-perm Permᴰ.nil o h k = (tt, refl)
  merges-perm (Permᴰ.cons {a = a} {b = b} e p) o (ha, h) k =
      let ih =
        merges-perm p (if equal key a.key then merge o a else o) h (step-IsKeyed key o a ha.1 k) in
      rw (← e) ((ha, ih.0), ih.1)
  merges-perm (Permᴰ.swap {a = a} {b = b} {l = l} e d) o (ha, (hb, h)) k =
      rw (← e, ← d) ((hb, (ha, h)), ap (merges key l) (swap_step a b o ha hb k))
  merges-perm (Permᴰ.trans p q) o h k =
      let first = merges-perm p o h k in
      let second = merges-perm q o first.0 k in (second.0, first.1 ∙ second.1)

  -- Two routers that hold the same entry for a key, and that receive the same announcements in
  -- any two orders, end with the same entry for it. The parents' keys have their size, and no two
  -- of the announcements agree in the key, the sequence number, the parent and the nonce and
  -- differ in the rest.
  pub updates-perm :
      (xs ys : List RouterAnnounce) (r r' : Router)
      → Perm xs ys
      → All IsSound xs
      → IsKeyed (lookup key r.infos)
      → lookup key r.infos ≡ lookup key r'.infos
      → lookup key (updates xs r).infos ≡ lookup key (updates ys r').infos
  updates-perm xs ys r r' p h k same_start =
      lookup-updates key xs r
      ∙ ∥∥₁_elim p (Option_info_set _ _) (λ d. (merges-perm d (lookup key r.infos) h k).1)
      ∙ ap (merges key ys) same_start
      ∙ sym (lookup-updates key ys r')

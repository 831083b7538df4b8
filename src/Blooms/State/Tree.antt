-- ===== src/Blooms/State/Tree.antt =====
-- `_fixOnTree` of ironwood/network/bloomfilter.go: which nodes are next to this one on the tree.
use yggdrasil_go.Base.{
  ◌≡◌, refl, sym, ap, ◌∙◌, [], ◌∷◌, append-nil, some, true, false, not, ◌&&◌, Bool-cases, inl, inr,
  some_eq, All, ◌⊎◌, Option-cases,
}
use yggdrasil_go.Binary.{Bytes}
use yggdrasil_go.Crypto.{equal}
use yggdrasil_go.Crypto.Order.{eq_of_equal, ne_of_equal}
use yggdrasil_go.Map.{Map, lookup, bytes_key}
use yggdrasil_go.Messages.RouterAnnounce.{RouterInfo}
use yggdrasil_go.Router.State.{Router}
use yggdrasil_go.Blooms.Filters.{Filters}
use yggdrasil_go.Blooms.State.{BloomInfo, Blooms, next_to, fix_entry, fix_entries, fix_on_tree}

module _ {F : Type 0} (fs : Filters F) (r : Router) (parent : Bytes) where
  fix_entry-on_tree :
      (pk : Bytes) (pbi : BloomInfo F)
      → (fix_entry fs r parent pk pbi).0.on_tree ≡ next_to r parent pk
  unfolding fix_entry
  fix_entry-on_tree pk pbi = elim (Bool-cases (pbi.on_tree && not (next_to r parent pk))) [
    | inl left ↦ rw left refl
    | inr stays ↦ rw stays refl
  ]

  -- An entry that is right already stays, and nothing is sent for it.
  fix_entry_again :
      (pk : Bytes) (pbi : BloomInfo F)
      → pbi.on_tree ≡ next_to r parent pk
      → fix_entry fs r parent pk pbi ≡ (pbi, [])
  unfolding fix_entry
  fix_entry_again pk pbi e = elim (Bool-cases pbi.on_tree) [
    | inl on ↦ let n : next_to r parent pk ≡ true = sym e ∙ on in rw (n, on) refl
    | inr off ↦ let n : next_to r parent pk ≡ false = sym e ∙ off in rw (n, off) refl
  ]

  fix_entries_again :
      (m : Map Bytes (BloomInfo F))
      → All (λ e. e.1.on_tree ≡ next_to r parent e.0) m
      → fix_entries fs r parent m ≡ (m, [])
  unfolding fix_entries
  fix_entries_again [] h = refl
  fix_entries_again ((pk, pbi) ∷ m) h =
      rw (fix_entry_again pk pbi h.0, fix_entries_again m h.1) refl

  fix_entries-on_tree :
      (m : Map Bytes (BloomInfo F))
      → All (λ e. e.1.on_tree ≡ next_to r parent e.0) (fix_entries fs r parent m).0
  unfolding fix_entries
  fix_entries-on_tree [] = tt
  fix_entries-on_tree ((pk, pbi) ∷ m) = (fix_entry-on_tree pk pbi, fix_entries-on_tree m)

-- The node is the parent, or its announcement is known and names this node as its parent.
abbrev pub IsNextTo : Router → Bytes → Bytes → Type 0
IsNextTo r parent pk =
    (pk ≡ parent)
    ⊎ ((info : RouterInfo) × (lookup pk r.infos ≡ some info) × (info.parent ≡ r.public_key))

next_to-IsNextTo :
    (r : Router) (parent pk : Bytes)
    → ((next_to r parent pk ≡ true) × IsNextTo r parent pk)
      ⊎ ((next_to r parent pk ≡ false) × (¬ IsNextTo r parent pk))
unfolding next_to
next_to-IsNextTo r parent pk = elim (Bool-cases (equal parent pk)) [
  | inl same ↦ inl (rw same refl, inl (sym (eq_of_equal parent pk same)))
  | inr other ↦ elim (Option-cases (lookup pk r.infos)) [
    | inl missing ↦ inr (
      rw (other, missing, next_to) refl,
      λ h. elim h [ inl e ↦ ne_of_equal parent pk other (sym e) | inr (info, found, _) ↦ cc ],
    )
    | inr (known, found) ↦ elim (Bool-cases (equal known.parent r.public_key)) [
      | inl child ↦ inl (
        rw (other, found, next_to, child) refl,
        inr (known, found, eq_of_equal known.parent r.public_key child),
      )
      | inr stranger ↦ inr (
        rw (other, found, next_to, stranger) refl,
        λ h. elim h [
          | inl e ↦ ne_of_equal parent pk other (sym e)
          | inr (info, known_as, up) ↦
              let same : known ≡ info = some_eq (sym found ∙ known_as) in
              ne_of_equal known.parent r.public_key stranger (ap RouterInfo.parent same ∙ up)
        ],
      )
    ]
  ]
]

-- The mark of the entry is right.
abbrev pub IsMarked : {F : Type 0} → Router → Bytes → Bytes × BloomInfo F → Type 0
IsMarked r parent (pk, pbi) =
    ((pbi.on_tree ≡ true) × IsNextTo r parent pk)
    ⊎ ((pbi.on_tree ≡ false) × (¬ IsNextTo r parent pk))

entries-IsMarked :
    {F : Type 0} (r : Router) (parent : Bytes) (m : Map Bytes (BloomInfo F))
    → All (λ e. e.1.on_tree ≡ next_to r parent e.0) m
    → All (IsMarked r parent) m
entries-IsMarked r parent [] h = tt
entries-IsMarked r parent ((pk, pbi) ∷ m) h = (
  elim (next_to-IsNextTo r parent pk) [
    | inl (on, near) ↦ inl (h.0 ∙ on, near)
    | inr (off, far) ↦ inr (h.0 ∙ off, far)
  ],
  entries-IsMarked r parent m h.1,
)

-- After `_fixOnTree` each node that is marked as next to this one on the tree is its parent or has
-- this node as its parent, each that is not marked is neither, and doing it again changes nothing
-- and sends nothing.
pub fix_on_tree_settles :
    {F : Type 0} (fs : Filters F) (r : Router) (self_info : RouterInfo) (bs bs' : Blooms F)
    → lookup r.public_key r.infos ≡ some self_info
    → fix_on_tree fs r bs ≡ some bs'
    → All (IsMarked r self_info.parent) bs'.infos × (fix_on_tree fs r bs' ≡ some bs')
unfolding fix_on_tree
fix_on_tree_settles fs r self_info bs bs' found e =
    let parent = self_info.parent in
    let fixed = fix_entries fs r parent bs.infos in
    let same = some_eq (rw (found, fix_on_tree) at e) in
    let settled : All (λ e. e.1.on_tree ≡ next_to r parent e.0) bs'.infos =
      rw (sym (ap Blooms.infos same)) (fix_entries-on_tree fs r parent bs.infos) in
    (
      entries-IsMarked r parent bs'.infos settled,
      rw (found, fix_on_tree, fix_entries_again fs r parent bs'.infos settled, append-nil bs'.sent)
          refl,
    )

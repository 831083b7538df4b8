-- ===== src/Blooms/State/Laws.antt =====
-- What the filters of ironwood/network/bloomfilter.go hold after `_getBloomFor`.
use yggdrasil_go.Base.{
  ◌≡◌, ◌≢◌, sym, ap, [], ◌∷◌, some, Bool, true, false, Bool-cases, Option-cases, inl, inr,
  some_pair, ◌⊎◌,
}
use yggdrasil_go.Binary.{Bytes}
use yggdrasil_go.Crypto.{equal}
use yggdrasil_go.Map.{Map, lookup, bytes_key}
use yggdrasil_go.Router.State.{Router}
use yggdrasil_go.Blooms.Filters.{Filters, FiltersLaws}
use yggdrasil_go.Blooms.State.{
  BloomInfo, Blooms, x_key, merge_others, fresh_bloom, keep_bits, get_bloom_for,
}

module _ {F : Type 0} (fs : Filters F) (laws : FiltersLaws fs) where
  merge_others_keeps :
      (key : Bytes) (m : Map Bytes (BloomInfo F)) (f : F) (j : Bytes)
      → fs.test j f ≡ true
      → fs.test j (merge_others fs key m f) ≡ true
  unfolding merge_others
  merge_others_keeps key [] f j h = h
  merge_others_keeps key ((k, pbi) ∷ m) f j h = elim (Bool-cases pbi.on_tree) [
    | inr off ↦ rw off (merge_others_keeps key m f j h)
    | inl on ↦ elim (Bool-cases (equal k key)) [
      | inl same ↦ rw (on, same) (merge_others_keeps key m f j h)
      | inr other ↦
          rw (on, other)
            (merge_others_keeps key m (fs.merge f pbi.recv) j (laws.test-merge_left j f pbi.recv h))
    ]
  ]

  keep_bits_covers :
      (keep : Bool) (pbi : BloomInfo F) (f : F) (j : Bytes)
      → fs.test j f ≡ true
      → fs.test j (keep_bits fs keep pbi f).0 ≡ true
  unfolding keep_bits
  keep_bits_covers false pbi f j h = h
  keep_bits_covers true pbi f j h = laws.test-merge_left j f pbi.send h

  -- What the fresh filter has is in the filter that is sent, whichever it is.
  get_bloom_for_fresh :
      (transform : Bytes → Bytes) (r : Router) (key : Bytes) (keep is_new : Bool) (b : F)
      (bs bs' : Blooms F) (j : Bytes)
      → get_bloom_for fs transform r key keep bs ≡ some ((b, is_new), bs')
      → fs.test j (fresh_bloom fs transform r key bs.infos) ≡ true
      → fs.test j b ≡ true
  unfolding get_bloom_for
  get_bloom_for_fresh transform r key keep is_new b bs bs' j e h =
      elim (Option-cases (lookup key bs.infos)) [
        | inl missing ↦ cc (rw (missing, get_bloom_for) at e)
        | inr (pbi, found) ↦
            let kept = keep_bits fs keep pbi (fresh_bloom fs transform r key bs.infos) in
            let covers = keep_bits_covers keep pbi (fresh_bloom fs transform r key bs.infos) j h in
            elim (Bool-cases (fs.equal kept.0 pbi.send)) [
              | inl same ↦
                  let (eb, _) = some_pair (rw (found, get_bloom_for, same) at e) in
                  let sent : pbi.send ≡ b = ap (λ z. z.0) eb in
                  rw (sym sent) (rw ((laws.equal_iff kept.0 pbi.send).0 same) at covers)
              | inr changed ↦
                  let (eb, _) = some_pair (rw (found, get_bloom_for, changed) at e) in
                  let sent : kept.0 ≡ b = ap (λ z. z.0) eb in rw (sym sent) covers
            ]
      ]

  -- The own key alone needs no neighbour.
  pub get_bloom_for_own :
      (transform : Bytes → Bytes) (r : Router) (key : Bytes) (keep is_new : Bool) (b : F)
      (bs bs' : Blooms F)
      → get_bloom_for fs transform r key keep bs ≡ some ((b, is_new), bs')
      → fs.test (x_key transform r.public_key) b ≡ true
  unfolding fresh_bloom
  get_bloom_for_own transform r key keep is_new b bs bs' e =
      let own = x_key transform r.public_key in
      get_bloom_for_fresh transform r key keep is_new b bs bs' own e
        (merge_others_keeps key bs.infos (fs.add own fs.new) own (laws.test-add own fs.new))

  -- The keys that the node with the key `key` is to find by way of this one: the own key, and those
  -- that another node next to this one on the tree told.
  abbrev pub Behind : (Bytes → Bytes) → Router → Bytes → Blooms F → Bytes → Type 0
  Behind transform r key bs j =
      (j ≡ x_key transform r.public_key)
      ⊎ ((k : Bytes) × (pbi : BloomInfo F) × (lookup k bs.infos ≡ some pbi)
          × (pbi.on_tree ≡ true)
          × (k ≢ key)
          × (fs.test j pbi.recv ≡ true))

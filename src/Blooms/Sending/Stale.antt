-- ===== src/Blooms/Sending/Stale.antt =====
-- What `_sendAllBlooms` of ironwood/network/bloomfilter.go does with bits that a filter should no
-- longer have.
use yggdrasil_go.Base.{
  ℕ, ◌+◌, ◌%◌, ◌^◌, ◌≡◌, ◌≢◌, refl, sym, ap, ◌∙◌, List, [], ◌∷◌, map, some, Bool, true, false, not,
  ◌||◌, leb, Bool-cases, Option-cases, inl, inr, some_pair, some_eq, >>=-eq-some,
}
use yggdrasil_go.Binary.{Bytes}
use yggdrasil_go.Crypto.{equal}
use yggdrasil_go.Crypto.Order.{eq_of_equal, ne_of_equal}
use yggdrasil_go.Map.{Map, lookup, insert, bytes_key}
use yggdrasil_go.Map.Laws.{lookup-insert_self, lookup-insert_ne}
use yggdrasil_go.Router.State.{Router}
use yggdrasil_go.Blooms.Filters.{Filters, FiltersLaws}
use yggdrasil_go.Blooms.State.{
  BloomInfo, Blooms, merge_others, fresh_bloom, keep_bits, get_bloom_for,
}
use yggdrasil_go.Blooms.Sending.{send_to_all, send_all_round, send_all_loop, send_all_blooms}

ne_sym : (a c : Bytes) → a ≢ c → c ≢ a
ne_sym a c h e = h (sym e)

module _ {F : Type 0} (fs : Filters F) where
  -- An entry of which only what is sent has changed counts the same for the other nodes.
  merge_others-insert :
      (key k : Bytes) (m : Map Bytes (BloomInfo F)) (pbi pbi' : BloomInfo F) (f : F)
      → lookup k m ≡ some pbi
      → pbi'.on_tree ≡ pbi.on_tree
      → pbi'.recv ≡ pbi.recv
      → merge_others fs key (insert k pbi' m) f ≡ merge_others fs key m f
  unfolding merge_others lookup insert
  merge_others-insert key k [] pbi pbi' f found on recv = cc
  merge_others-insert key k ((k1, pbi1) ∷ m) pbi pbi' f found on recv =
      elim (Bool-cases (equal k k1)) [
        | inl same ↦
            let here : some pbi1 ≡ some pbi = rw same at found in
            let e : pbi ≡ pbi1 = cc in
            let on1 : pbi'.on_tree ≡ pbi1.on_tree = on ∙ ap BloomInfo.on_tree e in
            let recv1 : pbi'.recv ≡ pbi1.recv = recv ∙ ap BloomInfo.recv e in
            rw (same, on1, recv1) refl
        | inr other ↦ rw other (merge_others-insert key k m pbi pbi' _ (rw other at found) on recv)
      ]

-- What was last sent to the node `key` has the key `j`, although nothing leads to `j` any more and
-- nothing has come in its place.
pub record Stale {F : Type 0} (fs : Filters F) (transform : Bytes → Bytes) (r : Router)
    (key j : Bytes) (s : F) (m : Map Bytes (BloomInfo F)) : Type 0 where
  pub info : BloomInfo F
  pub found : lookup key m ≡ some info
  pub last : info.send ≡ s
  pub clean : info.z_dirty ≡ false
  pub covered : fs.merge (fresh_bloom fs transform r key m) s ≡ s
  pub gone : fs.test j (fresh_bloom fs transform r key m) ≡ false
  pub kept : fs.test j s ≡ true

module _ {F : Type 0} (fs : Filters F) (laws : FiltersLaws fs) (transform : Bytes → Bytes)
    (r : Router) (key j : Bytes) (s : F) where
  fresh_bloom-insert :
      (k : Bytes) (m : Map Bytes (BloomInfo F)) (pbi pbi' : BloomInfo F)
      → lookup k m ≡ some pbi
      → pbi'.on_tree ≡ pbi.on_tree
      → pbi'.recv ≡ pbi.recv
      → fresh_bloom fs transform r key (insert k pbi' m) ≡ fresh_bloom fs transform r key m
  unfolding fresh_bloom
  fresh_bloom-insert k m pbi pbi' found on recv =
      merge_others-insert fs key k m pbi pbi' _ found on recv

  Stale-insert :
      (k : Bytes) (m : Map Bytes (BloomInfo F)) (pbi pbi' : BloomInfo F)
      → Stale fs transform r key j s m
      → lookup k m ≡ some pbi
      → pbi'.on_tree ≡ pbi.on_tree
      → pbi'.recv ≡ pbi.recv
      → (k ≡ key → (pbi'.send ≡ pbi.send) × (pbi'.z_dirty ≡ pbi.z_dirty))
      → Stale fs transform r key j s (insert k pbi' m)
  Stale-insert k m pbi pbi' stale found on recv same_key =
      let fresh = fresh_bloom-insert k m pbi pbi' found on recv in
      elim (Bool-cases (equal k key)) [
        | inl same ↦
            let ek : k ≡ key = eq_of_equal k key same in
            let (send, dirty) = same_key ek in
            let ep : pbi ≡ stale.info = cc (found, stale.found, ek) in
            record {
              info = pbi';
              found = rw (sym ek) (lookup-insert_self k pbi' m);
              last = send ∙ ap BloomInfo.send ep ∙ stale.last;
              clean = dirty ∙ ap BloomInfo.z_dirty ep ∙ stale.clean;
              covered = rw fresh stale.covered;
              gone = rw fresh stale.gone;
              kept = stale.kept;
            }
        | inr other ↦ record {
          info = stale.info;
          found =
              lookup-insert_ne k key pbi' m (ne_sym k key (ne_of_equal k key other)) ∙ stale.found;
          last = stale.last;
          clean = stale.clean;
          covered = rw fresh stale.covered;
          gone = rw fresh stale.gone;
          kept = stale.kept;
        }
      ]

  -- The end of a round only counts on.
  send_to_all_lem :
      (k : Bytes) (b : F) (is_new : Bool) (pbi : BloomInfo F) (bs bs' : Blooms F)
      → send_to_all fs r k b is_new pbi bs ≡ some bs'
      → (q : ℕ) × (bs'.infos ≡ insert k (record pbi { seq = q }) bs.infos)
  unfolding send_to_all
  send_to_all_lem k b is_new pbi bs bs' e =
      elim (Bool-cases (is_new || leb 3600 ((pbi.seq + 1) % 2 ^ 16))) [
        | inr waits ↦ ((pbi.seq + 1) % 2 ^ 16, ap Blooms.infos (sym (some_eq (rw waits at e))))
        | inl sends ↦ elim (Option-cases (lookup k r.peers)) [
          | inl missing ↦ cc (rw (sends, missing, send_to_all) at e)
          | inr (ps, found) ↦
              (0, ap Blooms.infos (sym (some_eq (rw (sends, found, send_to_all) at e))))
        ]
      ]

  -- The filter for `key` stays the one that was sent, and so does the map.
  get_bloom_for_again :
      (bs : Blooms F)
      → (stale : Stale fs transform r key j s bs.infos)
      → get_bloom_for fs transform r key true bs ≡ some ((s, false), bs)
  unfolding get_bloom_for keep_bits
  get_bloom_for_again bs stale =
      let same : fs.equal (fs.merge (fresh_bloom fs transform r key bs.infos) stale.info.send)
            stale.info.send
          ≡ true =
        (laws.equal_iff _ _).1 (rw stale.last stale.covered) in
      rw (stale.found, get_bloom_for, same, stale.last) refl

  -- The filter for another node changes what is sent to that node only.
  get_bloom_for_other :
      (k : Bytes) (keep is_new : Bool) (b : F) (bs bs' : Blooms F) (pbi : BloomInfo F)
      → k ≢ key
      → Stale fs transform r key j s bs.infos
      → lookup k bs.infos ≡ some pbi
      → get_bloom_for fs transform r k keep bs ≡ some ((b, is_new), bs')
      → Stale fs transform r key j s bs'.infos
  unfolding get_bloom_for
  get_bloom_for_other k keep is_new b bs bs' pbi apart stale found e =
      let kept = keep_bits fs keep pbi (fresh_bloom fs transform r k bs.infos) in
      elim (Bool-cases (fs.equal kept.0 pbi.send)) [
        | inl same ↦
            let (_, eb) = some_pair (rw (found, get_bloom_for, same) at e) in
            rw (sym (ap Blooms.infos eb)) stale
        | inr changed ↦
            let (_, eb) = some_pair (rw (found, get_bloom_for, changed) at e) in
            rw (sym (ap Blooms.infos eb)) (
              Stale-insert k bs.infos pbi (record pbi { z_dirty = kept.1; send = kept.0 }) stale
                found refl refl (λ q. absurd (apart q)))
      ]

  send_to_all-Stale :
      (k : Bytes) (b : F) (is_new : Bool) (pbi : BloomInfo F) (bs bs' : Blooms F)
      → Stale fs transform r key j s bs.infos
      → lookup k bs.infos ≡ some pbi
      → send_to_all fs r k b is_new pbi bs ≡ some bs'
      → Stale fs transform r key j s bs'.infos
  send_to_all-Stale k b is_new pbi bs bs' stale found e =
      let (q, eq) = send_to_all_lem k b is_new pbi bs bs' e in
      rw eq (
        Stale-insert k bs.infos pbi (record pbi { seq = q }) stale found refl refl
          (λ same. (refl, refl)))

  get_bloom_for-Stale :
      (k : Bytes) (is_new : Bool) (b : F) (bs bs' : Blooms F) (pbi : BloomInfo F)
      → Stale fs transform r key j s bs.infos
      → lookup k bs.infos ≡ some pbi
      → get_bloom_for fs transform r k (not pbi.z_dirty) bs ≡ some ((b, is_new), bs')
      → Stale fs transform r key j s bs'.infos
  get_bloom_for-Stale k is_new b bs bs' pbi stale found e = elim (Bool-cases (equal k key)) [
    | inr other ↦
        get_bloom_for_other k (not pbi.z_dirty) is_new b bs bs' pbi (ne_of_equal k key other) stale
          found e
    | inl same ↦
        let ek : k ≡ key = eq_of_equal k key same in
        let ep : pbi ≡ stale.info = cc (found, stale.found, ek) in
        let keep : not pbi.z_dirty ≡ true = ap not (ap BloomInfo.z_dirty ep ∙ stale.clean) in
        let own : get_bloom_for fs transform r key true bs ≡ some ((b, is_new), bs') =
          cc (e, keep, ek) in
        let (_, eb) = some_pair (sym (get_bloom_for_again bs stale) ∙ own) in
        rw (sym (ap Blooms.infos eb)) stale
  ]

  send_all_round-Stale :
      (k : Bytes) (bs bs' : Blooms F)
      → Stale fs transform r key j s bs.infos
      → send_all_round fs transform r k bs ≡ some bs'
      → Stale fs transform r key j s bs'.infos
  unfolding send_all_round
  send_all_round-Stale k bs bs' stale e = elim (Option-cases (lookup k bs.infos)) [
    | inl missing ↦ rw (sym (some_eq (rw (missing, send_all_round) at e))) stale
    | inr (pbi, found) ↦ elim (Bool-cases pbi.on_tree) [
      | inr off ↦ rw (sym (some_eq (rw (found, send_all_round, off) at e))) stale
      | inl on ↦
          let (got, e1, e2) =
            >>=-eq-some (get_bloom_for fs transform r k (not pbi.z_dirty) bs) _
              (rw (found, send_all_round, on) at e) in
          let stale1 = get_bloom_for-Stale k got.0.1 got.0.0 bs got.1 pbi stale found e1 in
          elim (Option-cases (lookup k got.1.infos)) [
            | inl lost ↦ cc (rw lost at e2)
            | inr (changed, found1) ↦
                send_to_all-Stale k got.0.0 got.0.1 changed got.1 bs' stale1 found1
                  (rw found1 at e2)
          ]
    ]
  ]

  send_all_loop-Stale :
      (ks : List Bytes) (bs bs' : Blooms F)
      → Stale fs transform r key j s bs.infos
      → send_all_loop fs transform r ks bs ≡ some bs'
      → Stale fs transform r key j s bs'.infos
  unfolding send_all_loop
  send_all_loop-Stale [] bs bs' stale e = rw (sym (some_eq e)) stale
  send_all_loop-Stale (k ∷ ks) bs bs' stale e =
      let (bs1, e1, e2) = >>=-eq-some (send_all_round fs transform r k bs) _ e in
      send_all_loop-Stale ks bs1 bs' (send_all_round-Stale k bs bs1 stale e1) e2

  -- When all bits that the filter for a node should have are among those that it was sent, and no
  -- bits are marked as unnecessary, a key that was sent but that nothing leads to any more stays in
  -- what was sent to it, through every round of `_sendAllBlooms` with the same received filters.
  pub send_all_blooms-Stale :
      (bs bs' : Blooms F)
      → Stale fs transform r key j s bs.infos
      → send_all_blooms fs transform r bs ≡ some bs'
      → Stale fs transform r key j s bs'.infos
  unfolding send_all_blooms
  send_all_blooms-Stale bs bs' = send_all_loop-Stale (map (λ e. e.0) bs.infos) bs bs'

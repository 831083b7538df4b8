-- ===== src/Blooms/State.antt =====
-- ironwood/network/bloomfilter.go: blooms, a filter to send and a received one for each node that is
-- a peer, and which of them are next to this node on the tree. A filter is never changed once it is
-- in the map, so that filters are values.
pub mod Laws
pub mod Tree
use yggdrasil_go.Base.{
  ℕ, List, [], ◌∷◌, ◌++◌, map, Option, none, some, Bool, true, false, ◌&&◌, ◌||◌, not,
  if◌then◌else◌, take, replicate, ◌>>=◌,
}
use yggdrasil_go.Binary.{Bytes}
use yggdrasil_go.Crypto.{equal}
use yggdrasil_go.Map.{Map, lookup, insert, delete, get, bytes_key, number_key}
use yggdrasil_go.Messages.RouterAnnounce.{RouterInfo}
use yggdrasil_go.Router.State.{Router, Peer}
use yggdrasil_go.Blooms.Filters.{Filters}

pub record BloomInfo (F : Type 0) : Type 0 where
  pub send : F
  pub recv : F
  pub seq : ℕ
  pub on_tree : Bool
  pub z_dirty : Bool

-- The map of `blooms`, and the calls of `sendBloom`, oldest first.
pub record Blooms (F : Type 0) : Type 0 where
  pub infos : Map Bytes (BloomInfo F)
  pub sent : List (Peer × F)

-- `bloomTransform` of the configuration as the parameter `transform`, copied to a key.
unfoldable pub x_key : (Bytes → Bytes) → Bytes → Bytes
x_key transform key = take 32 (transform key ++ replicate 32 0)

-- The peers of `bs.router.peers[key]`, in any order.
unfoldable pub peers_of : Router → Bytes → List Peer
peers_of r key = map (λ e. e.1) (get [] key r.peers)

-- The new `onTree` of a node: it is the parent, or its own parent is this node.
unfoldable pub next_to : Router → Bytes → Bytes → Bool
next_to r parent pk =
    equal parent pk
    || elim (lookup pk r.infos) [ none ↦ false | some info ↦ equal info.parent r.public_key ]

module _ {F : Type 0} (fs : Filters F) where
  unfoldable pub is_on_tree : Bytes → Blooms F → Bool
  is_on_tree key bs = elim (lookup key bs.infos) [ none ↦ false | some pbi ↦ pbi.on_tree ]

  unfoldable pub add_info : Bytes → Blooms F → Blooms F
  add_info key bs = record bs {
    infos =
        insert key
          (record { send = fs.new; recv = fs.new; seq = 0; on_tree = false; z_dirty = false })
          bs.infos;
  }

  unfoldable pub remove_info : Bytes → Blooms F → Blooms F
  remove_info key bs = record bs { infos = delete key bs.infos }

  unfoldable pub handle_bloom : Bytes → F → Blooms F → Blooms F
  handle_bloom from f bs = elim (lookup from bs.infos) [
    | none ↦ bs
    | some pbi ↦ record bs { infos = insert from (record pbi { recv = f }) bs.infos }
  ]

  -- A round of the loop of `_fixOnTree`: the entry, and the blank filter for the peers of a node
  -- that left the tree.
  unfoldable pub fix_entry : Router → Bytes → Bytes → BloomInfo F → BloomInfo F × List (Peer × F)
  unfolding next_to
  fix_entry r parent pk pbi =
      let on = next_to r parent pk in
      if pbi.on_tree && not on
      then (record pbi { on_tree = on; send = fs.new }, map (λ p. (p, fs.new)) (peers_of r pk))
      else (record pbi { on_tree = on }, [])

  unfoldable pub fix_entries :
      Router → Bytes → Map Bytes (BloomInfo F) → Map Bytes (BloomInfo F) × List (Peer × F)
  fix_entries r parent [] = ([], [])
  fix_entries r parent ((pk, pbi) ∷ m) =
      let (pbi', sends) = fix_entry r parent pk pbi in
      let (m', rest) = fix_entries r parent m in ((pk, pbi') ∷ m', sends ++ rest)

  -- `none` is the panic.
  unfoldable pub fix_on_tree : Router → Blooms F → Option (Blooms F)
  unfolding fix_entries
  fix_on_tree r bs = elim (lookup r.public_key r.infos) [
    | none ↦ none
    | some self_info ↦
        let (m, sends) = fix_entries r self_info.parent bs.infos in
        some (record { infos = m; sent = bs.sent ++ sends })
  ]

  -- The filters that were received from the other nodes on the tree, merged into `f`.
  unfoldable pub merge_others : Bytes → Map Bytes (BloomInfo F) → F → F
  merge_others key [] f = f
  merge_others key ((k, pbi) ∷ m) f =
      merge_others key m
        (if not pbi.on_tree then f else if equal k key then f else fs.merge f pbi.recv)

  -- What `_getBloomFor` sets up from the own key and the neighbours.
  unfoldable pub fresh_bloom : (Bytes → Bytes) → Router → Bytes → Map Bytes (BloomInfo F) → F
  unfolding merge_others
  fresh_bloom transform r key m = merge_others key m (fs.add (x_key transform r.public_key) fs.new)

  -- The filter to send, and `zDirty`, from the fresh one: bits that were sent stay for one more
  -- time.
  unfoldable pub keep_bits : Bool → BloomInfo F → F → F × Bool
  keep_bits false pbi b = (b, false)
  keep_bits true pbi b =
      let b' = fs.merge b pbi.send in (b', if pbi.z_dirty then true else not (fs.equal b' b))

  -- `none` is the panic.
  unfoldable pub get_bloom_for :
      (Bytes → Bytes) → Router → Bytes → Bool → Blooms F → Option ((F × Bool) × Blooms F)
  unfolding keep_bits fresh_bloom
  get_bloom_for transform r key keep_ones bs = elim (lookup key bs.infos) [
    | none ↦ none
    | some pbi ↦
        let (b, dirty) = keep_bits keep_ones pbi (fresh_bloom transform r key bs.infos) in
        if fs.equal b pbi.send
        then some ((pbi.send, false), bs)
        else some (
          (b, true),
          record bs { infos = insert key (record pbi { z_dirty = dirty; send = b }) bs.infos },
        )
  ]

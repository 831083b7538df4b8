-- ===== src/Tests/Blooms.antt =====
-- Bloom filters of two bits, one for the keys that begin with a zero byte and one for the others.
use yggdrasil_go.Base.{
  ℕ, ◌≤◌, ◌≡◌, ◌↔◌, refl, [], ◌∷◌, Option, none, some, Bool, true, false, ◌||◌, ◌==◌, if◌then◌else◌,
  length, replicate, get_or, arith, All, leb, Bool-cases, inl, inr, sym, ap, ◌∙◌, ==_iff, ==_refl,
  zero, suc,
}
use mathlib.Core.List.{Memᴰ}
use yggdrasil_go.Binary.{Bytes, IsU64}
use yggdrasil_go.Crypto.{equal}
use yggdrasil_go.Tests.Data.{announcement}
use yggdrasil_go.Messages.RouterAnnounce.{RouterInfo}
use yggdrasil_go.Router.Infos.{info_of}
use yggdrasil_go.Map.{lookup, insert, get}
use yggdrasil_go.Router.State.{Router, Peer, init}
use yggdrasil_go.Blooms.Filters.{Filters, FiltersLaws}
use yggdrasil_go.Blooms.Codec.{size, encode, decode}
use yggdrasil_go.Blooms.Codec.Laws.{bloom_round_trip}
use yggdrasil_go.Blooms.State.{
  BloomInfo, Blooms, get_bloom_for, fresh_bloom, merge_others, keep_bits, x_key, peers_of,
  handle_bloom, fix_on_tree, fix_entries, fix_entry, next_to,
}
use yggdrasil_go.Blooms.Sending.{
  send_all_blooms, send_multicast, send_all_loop, send_all_round, send_to_all, multicast_loop,
  wants, best_of,
}
use yggdrasil_go.Blooms.Sending.Reaching.{filters_lead_back}
use yggdrasil_go.Blooms.State.Tree.{IsMarked, fix_on_tree_settles}
use yggdrasil_go.Blooms.Sending.Stale.{Stale, send_all_blooms-Stale}

abbrev Two : Type 0
Two = Bool × Bool

abbrev begins_zero : Bytes → Bool
begins_zero k = get_or k 0 0 == 0

abbrev two_number : Two → ℕ
two_number (true, true) = 3
two_number (true, false) = 2
two_number (false, true) = 1
two_number (false, false) = 0

abbrev two_of : ℕ → Two
two_of n = (leb 2 n, (n == 1) || (n == 3))

abbrev same_two : Two → Two → Bool
same_two a b = two_number a == two_number b

abbrev two_filters : Filters Two
two_filters = record {
  new = (false, false);
  add = λ k f. if begins_zero k then (true, f.1) else (f.0, true);
  merge = λ f g. (f.0 || g.0, f.1 || g.1);
  test = λ k f. if begins_zero k then f.0 else f.1;
  equal = same_two;
  words = λ f. replicate 128 (two_number f);
  from_words = λ us. two_of (get_or us 0 0);
}

two_add : (k : Bytes) (f : Two) → two_filters.test k (two_filters.add k f) ≡ true
two_add k f = elim (Bool-cases (begins_zero k)) [ inl e ↦ rw e refl | inr e ↦ rw e refl ]

or_left : (a b : Bool) → a ≡ true → (a || b) ≡ true
or_left true b h = refl
or_left false b h = cc

or_right : (a b : Bool) → b ≡ true → (a || b) ≡ true
or_right true b h = refl
or_right false b h = h

two_left :
    (k : Bytes) (f g : Two)
    → two_filters.test k f ≡ true
    → two_filters.test k (two_filters.merge f g) ≡ true
two_left k f g h = elim (Bool-cases (begins_zero k)) [
  | inl e ↦ rw e (or_left f.0 g.0 (rw e at h))
  | inr e ↦ rw e (or_left f.1 g.1 (rw e at h))
]

two_right :
    (k : Bytes) (f g : Two)
    → two_filters.test k g ≡ true
    → two_filters.test k (two_filters.merge f g) ≡ true
two_right k f g h = elim (Bool-cases (begins_zero k)) [
  | inl e ↦ rw e (or_right f.0 g.0 (rw e at h))
  | inr e ↦ rw e (or_right f.1 g.1 (rw e at h))
]

two_back : (f : Two) → two_of (two_number f) ≡ f
two_back (true, true) = refl
two_back (true, false) = refl
two_back (false, true) = refl
two_back (false, false) = refl

two_equal : (f g : Two) → (same_two f g ≡ true) ↔ (f ≡ g)
two_equal f g = (
  λ h. sym (two_back f) ∙ ap two_of ((==_iff (two_number f) (two_number g)).0 h) ∙ two_back g,
  λ e. rw e (==_refl (two_number g)),
)

All-replicate : (n u : ℕ) → IsU64 u → All IsU64 (replicate n u)
All-replicate zero u h = tt
All-replicate (suc n) u h = (h, All-replicate n u h)

two_small : (f : Two) → IsU64 (two_number f)
two_small (true, true) = omega arith
two_small (true, false) = omega arith
two_small (false, true) = omega arith
two_small (false, false) = omega arith

two-FiltersLaws : FiltersLaws two_filters
two-FiltersLaws = record {
  test-add = two_add;
  test-merge_left = two_left;
  test-merge_right = two_right;
  equal_iff = two_equal;
  from_words-words = two_back;
  words_size = λ f. refl;
  words_u64 = λ f. All-replicate 128 (two_number f) (two_small f);
}

bloom_round_trip_example :
    (bs : Bytes) × (encode two_filters (true, false) ≡ some bs)
    × (length bs ≡ size two_filters (true, false))
    × (decode two_filters bs ≡ some (true, false))
bloom_round_trip_example = bloom_round_trip two_filters two-FiltersLaws (true, false)

abbrev entry : Two → Two → Bool → BloomInfo Two
entry send recv on = record { send = send; recv = recv; seq = 0; on_tree = on; z_dirty = false }

abbrev neighbours : Blooms Two
neighbours = record {
  infos =
      (7 ∷ [], entry (true, true) (false, false) true)
      ∷ (8 ∷ [], entry (false, true) (true, false) true)
      ∷ [];
  sent = [];
}

abbrev peer_of : ℕ → ℕ → Peer
peer_of id key = record { id = id; key = key ∷ []; port = id; prio = id; order = id; protocol = [] }

abbrev node : Router
node = record (init (5 ∷ [])) {
  peers = (7 ∷ [], (1, peer_of 1 7) ∷ []) ∷ (8 ∷ [], (3, peer_of 3 8) ∷ (2, peer_of 2 8) ∷ []) ∷ [];
}

abbrev same_key : Bytes → Bytes
same_key k = k

abbrev other_node : Router
other_node = init (8 ∷ [])

abbrev other_blooms : Blooms Two
other_blooms = record { infos = (5 ∷ [], entry (false, false) (false, false) true) ∷ []; sent = [] }

abbrev other_blooms_sent : Blooms Two
other_blooms_sent = record {
  infos = (5 ∷ [], entry (false, true) (false, false) true) ∷ [];
  sent = [];
}

filters_lead_back_example :
    (p : Peer) × Memᴰ p (peer_of 2 8 ∷ [])
    × Memᴰ p (peers_of node (8 ∷ []))
    × All (λ q. p.prio ≤ q.prio) (peers_of node (8 ∷ []))
unfolding get_bloom_for fresh_bloom merge_others keep_bits lookup x_key insert handle_bloom
    send_multicast multicast_loop wants best_of peers_of get equal init
filters_lead_back_example =
    filters_lead_back two_filters two-FiltersLaws same_key other_node node (7 ∷ []) false true
      (false, true) other_blooms other_blooms_sent neighbours
      (entry (false, true) (true, false) true) (peer_of 2 8 ∷ []) refl refl refl (λ e. cc) refl

-- The node 8 leads nowhere any more, and the node 7 was sent both bits.
abbrev left_behind : Blooms Two
left_behind = record {
  infos =
      (7 ∷ [], entry (true, true) (false, false) true)
      ∷ (8 ∷ [], entry (false, true) (false, false) true)
      ∷ [];
  sent = [];
}

abbrev blooms_or : Blooms Two → Option (Blooms Two) → Blooms Two
blooms_or start none = start
blooms_or start (some bs) = bs

abbrev after_round : Blooms Two
after_round = blooms_or neighbours (send_all_blooms two_filters same_key node left_behind)

left_behind-Stale : Stale two_filters same_key node (7 ∷ []) (0 ∷ []) (true, true) left_behind.infos
unfolding fresh_bloom merge_others lookup x_key equal init
left_behind-Stale = record {
  info = entry (true, true) (false, false) true;
  found = refl;
  last = refl;
  clean = refl;
  covered = refl;
  gone = refl;
  kept = refl;
}

send_all_blooms-Stale_example :
    Stale two_filters same_key node (7 ∷ []) (0 ∷ []) (true, true) after_round.infos
unfolding send_all_blooms send_all_loop send_all_round send_to_all get_bloom_for fresh_bloom
    merge_others keep_bits lookup x_key insert equal init
send_all_blooms-Stale_example =
    send_all_blooms-Stale two_filters two-FiltersLaws same_key node (7 ∷ []) (0 ∷ []) (true, true)
      left_behind after_round left_behind-Stale refl

abbrev info_with : ℕ → RouterInfo
info_with parent = record (info_of (announcement 5 7 1)) { parent = parent ∷ [] }

-- The node 5 has the parent 7, and the node 8 has gone to another one.
abbrev tree_node : Router
tree_node = record node { infos = (5 ∷ [], info_with 7) ∷ (8 ∷ [], info_with 9) ∷ [] }

abbrev after_fix : Blooms Two
after_fix = blooms_or neighbours (fix_on_tree two_filters tree_node neighbours)

fix_on_tree_settles_example :
    All (IsMarked tree_node (7 ∷ [])) after_fix.infos
    × (fix_on_tree two_filters tree_node after_fix ≡ some after_fix)
unfolding fix_on_tree fix_entries fix_entry next_to peers_of get lookup equal init info_of
fix_on_tree_settles_example =
    fix_on_tree_settles two_filters tree_node (info_with 7) neighbours after_fix refl refl

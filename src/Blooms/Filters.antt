-- ===== src/Blooms/Filters.antt =====
-- What ironwood/network/bloomfilter.go takes from github.com/bits-and-blooms/bloom: the operations
-- on filters of one size, and what they are documented to promise.
use yggdrasil_go.Base.{ℕ, ◌≡◌, ◌↔◌, List, Bool, true, All, length}
use yggdrasil_go.Binary.{Bytes, IsU64}

-- `words` is BitSet().Bytes(), `from_words` is From with the number of hashes of this network, and
-- `merge f g` is what `f` is after `f.Merge(g)`.
pub record Filters (F : Type 0) : Type 0 where
  pub new : F
  pub add : Bytes → F → F
  pub merge : F → F → F
  pub test : Bytes → F → Bool
  pub equal : F → F → Bool
  pub words : F → List ℕ
  pub from_words : List ℕ → F

-- A key that was added is found, also after a merge. The words are the whole of a filter.
pub record FiltersLaws {F : Type 0} (fs : Filters F) : Type 0 where
  pub test-add : (k : Bytes) (f : F) → fs.test k (fs.add k f) ≡ true
  pub test-merge_left : (k : Bytes) (f g : F) → fs.test k f ≡ true → fs.test k (fs.merge f g) ≡ true
  pub test-merge_right :
      (k : Bytes) (f g : F) → fs.test k g ≡ true → fs.test k (fs.merge f g) ≡ true
  pub equal_iff : (f g : F) → (fs.equal f g ≡ true) ↔ (f ≡ g)
  pub from_words-words : (f : F) → fs.from_words (fs.words f) ≡ f
  pub words_size : (f : F) → length (fs.words f) ≡ 128
  pub words_u64 : (f : F) → All IsU64 (fs.words f)

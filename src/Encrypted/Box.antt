-- ===== src/Encrypted/Box.antt =====
-- What ironwood/encrypted/crypto.go takes from golang.org/x/crypto/nacl/box, crypto/ed25519 and
-- crypto/rand, and from the curve conversion of internal/e2c: the operations, and what they are
-- documented to promise each other. Keys, shared keys and signatures are arrays of bytes.
use yggdrasil_go.Base.{ℕ, ◌+◌, ◌≡◌, Option, some, Bool, true, length}
use yggdrasil_go.Binary.{Bytes}

-- `new_keys` is box.GenerateKey at each of its calls, `shared` is box.Precompute, `seal` and `open`
-- are SealAfterPrecomputation and OpenAfterPrecomputation with the nonce as a number, `ed_public`
-- is the public key of a private one, and `to_box` and `to_box_private` convert keys.
pub record Box : Type 0 where
  pub new_keys : ℕ → Bytes × Bytes
  pub shared : Bytes → Bytes → Bytes
  pub seal : Bytes → ℕ → Bytes → Bytes
  pub open_sealed : Bytes → ℕ → Bytes → Option Bytes
  pub ed_sign : Bytes → Bytes → Bytes
  pub ed_check : Bytes → Bytes → Bytes → Bool
  pub ed_public : Bytes → Bytes
  pub to_box : Bytes → Bytes
  pub to_box_private : Bytes → Bytes

-- A sealed message is opened with its nonce and key, and is box.Overhead bytes longer. Two ends
-- compute the same shared key. A signature made with a key is valid for its public key.
pub record BoxLaws (b : Box) : Type 0 where
  pub open_seal :
      (msg key : Bytes) (nonce : ℕ) → b.open_sealed (b.seal msg nonce key) nonce key ≡ some msg
  pub seal_size : (msg key : Bytes) (nonce : ℕ) → length (b.seal msg nonce key) ≡ 16 + length msg
  pub agree :
      (i j : ℕ)
      → b.shared (b.new_keys i).0 (b.new_keys j).1 ≡ b.shared (b.new_keys j).0 (b.new_keys i).1
  pub agree_ed :
      (i : ℕ) (private : Bytes)
      → b.shared (b.to_box (b.ed_public private)) (b.new_keys i).1
        ≡ b.shared (b.new_keys i).0 (b.to_box_private private)
  pub key_size : (i : ℕ) → length (b.new_keys i).0 ≡ 32
  pub signature_size : (msg private : Bytes) → length (b.ed_sign private msg) ≡ 64
  pub signature_valid :
      (msg private : Bytes) → b.ed_check msg (b.ed_sign private msg) (b.ed_public private) ≡ true

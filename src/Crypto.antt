-- ===== src/Crypto.antt =====
-- ironwood/network/crypto.go: keys as byte arrays, and their order. The signature scheme
-- (crypto/ed25519) is a parameter of the modules that sign and verify.
pub mod Order
use yggdrasil_go.Base.{
  ℕ, ◌<◌, ◌≡◌, List, [], ◌∷◌, Bool, true, false, ◌&&◌, ltb, ◌==◌, length, if◌then◌else◌,
}
use yggdrasil_go.Binary.{Bytes}

abbrev pub public_key_size : ℕ
public_key_size = 32

abbrev pub signature_size : ℕ
signature_size = 64

-- An array `[publicKeySize]byte`, and a `[signatureSize]byte`.
abbrev pub IsPublicKey : Bytes → Type 0
IsPublicKey key = length key ≡ public_key_size

abbrev pub IsSignature : Bytes → Type 0
IsSignature sig = length sig ≡ signature_size

-- `key == comparedKey` on arrays.
unfoldable pub equal : Bytes → Bytes → Bool
equal [] [] = true
equal [] (b ∷ bs) = false
equal (a ∷ as') [] = false
equal (a ∷ as') (b ∷ bs) = a == b && equal as' bs

-- The first byte in which the keys differ decides. The keys are of one length, so that the second
-- one does not end first.
unfoldable pub less : Bytes → Bytes → Bool
less [] bs = false
less (a ∷ as') [] = false
less (a ∷ as') (b ∷ bs) =
    let later = less as' bs in if ltb a b then true else if ltb b a then false else later

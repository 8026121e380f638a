-- ===== src/Crypto.antt =====
-- The calls of the crypto library, lib/monocypher, which the code uses and this library does not
-- model.
use agnostic_lora_net.Prelude.{ℕ, ◌≡◌, Bool, true, List, length}

-- `crypto_ed25519_sign`, by secret key and message, and `crypto_ed25519_check(...) == 0`, by
-- signature, public key and message.
pub record Ed25519 : Type 0 where
  pub sign : List ℕ → List ℕ → List ℕ
  pub check : List ℕ → List ℕ → List ℕ → Bool

-- What the code relies on, of a secret key and its public key.
pub record IsKeyPair (c : Ed25519) (seckey pubkey : List ℕ) : Type 0 where
  pub whole : (m : List ℕ) → length (c.sign seckey m) ≡ 64
  pub checks : (m : List ℕ) → c.check (c.sign seckey m) pubkey m ≡ true

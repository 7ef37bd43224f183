-- ===== src/Crypto/Kem.antt =====
-- crypto/ml_kem.py (src/crypto): ML-KEM-768 with its checks of sizes. The coins stand for what the
-- backend draws at random.
use mathlib.Core.Path.{subst}
use kemtls.Common.{ap, ℕ, ◌≡◌, refl, arith, Bytes, IsBytes, length}
use kemtls.Common.Error.{Result, ok, ◌>>◌}
use kemtls.Crypto.Primitives.{Kem}
use kemtls.Crypto.Signatures.{check_size}
use kemtls.Crypto.Signatures.Jwk.{check_size-eq}

abbrev pub kem_public_key_size : ℕ
kem_public_key_size = 1184

abbrev pub kem_secret_key_size : ℕ
kem_secret_key_size = 2400

abbrev pub ciphertext_size : ℕ
ciphertext_size = 1088

abbrev pub shared_secret_size : ℕ
shared_secret_size = 32

module _ (k : Kem) where
  unfoldable pub generate_keypair : Bytes → Result (Bytes × Bytes)
  generate_keypair coins = do
    check_size kem_public_key_size (k.generate coins).0
    check_size kem_secret_key_size (k.generate coins).1
    ok (k.generate coins)

  unfoldable pub encapsulate : Bytes → Bytes → Result (Bytes × Bytes)
  encapsulate public_key coins = do
    check_size kem_public_key_size public_key
    check_size ciphertext_size (k.encap public_key coins).0
    check_size shared_secret_size (k.encap public_key coins).1
    ok (k.encap public_key coins)

  unfoldable pub decapsulate : Bytes → Bytes → Result Bytes
  decapsulate secret_key ciphertext = do
    check_size kem_secret_key_size secret_key
    check_size ciphertext_size ciphertext
    check_size shared_secret_size (k.decap secret_key ciphertext)
    ok (k.decap secret_key ciphertext)

  -- A public key and the secret key of its pair: what is encapsulated to the one is decapsulated
  -- with the other. The keys and what is made with them have the sizes of ML-KEM-768.
  pub record KeyPair (public_key secret_key : Bytes) : Type 0 where
    pub secret_key_length : length secret_key ≡ kem_secret_key_size
    pub ciphertext_length : (coins : Bytes) → length (k.encap public_key coins).0 ≡ ciphertext_size
    pub ciphertext-IsBytes : (coins : Bytes) → IsBytes (k.encap public_key coins).0
    pub shared_secret_length :
        (coins : Bytes) → length (k.encap public_key coins).1 ≡ shared_secret_size
    pub decap-encap :
        (coins : Bytes)
        → k.decap secret_key (k.encap public_key coins).0 ≡ (k.encap public_key coins).1

  pub encapsulate_inv :
      (public_key coins : Bytes) {made : Bytes × Bytes}
      → encapsulate public_key coins ≡ ok made
      → k.encap public_key coins ≡ made
  unfolding encapsulate
  encapsulate_inv public_key coins h = ground arith

  -- The holder of the secret key recovers the shared secret from the ciphertext.
  pub decapsulate-encapsulate :
      (public_key secret_key coins ciphertext shared_secret : Bytes)
      → KeyPair public_key secret_key
      → encapsulate public_key coins ≡ ok (ciphertext, shared_secret)
      → decapsulate secret_key ciphertext ≡ ok shared_secret
  unfolding decapsulate
  decapsulate-encapsulate public_key secret_key coins ciphertext shared_secret pair h =
      let made = encapsulate_inv public_key coins h in
      let ct : (k.encap public_key coins).0 ≡ ciphertext = cc in
      let ss : (k.encap public_key coins).1 ≡ shared_secret = cc in
      let decapsulated : k.decap secret_key ciphertext ≡ shared_secret =
        rw (← ct, ← ss) (pair.decap-encap coins) in
      let n : length ciphertext ≡ ciphertext_size = rw (← ct) (pair.ciphertext_length coins) in
      let m : length shared_secret ≡ shared_secret_size =
        rw (← ss) (pair.shared_secret_length coins) in
      rw
        (
          check_size-eq kem_secret_key_size secret_key pair.secret_key_length,
          check_size-eq ciphertext_size ciphertext n,
          decapsulated,
          check_size-eq shared_secret_size shared_secret m,
        )
        refl

  pub encapsulate-IsBytes :
      (public_key secret_key coins ciphertext shared_secret : Bytes)
      → KeyPair public_key secret_key
      → encapsulate public_key coins ≡ ok (ciphertext, shared_secret)
      → IsBytes ciphertext
  encapsulate-IsBytes public_key secret_key coins ciphertext shared_secret pair h =
      subst IsBytes (ap (λ (made : Bytes × Bytes). made.0) (encapsulate_inv public_key coins h))
        (pair.ciphertext-IsBytes coins)

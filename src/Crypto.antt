-- ===== src/Crypto.antt =====
-- What the program takes from Go's crypto packages (crypto/sha256, crypto/ecdsa, crypto/rsa,
-- crypto/x509, golang.org/x/crypto/hkdf, filippo.io/keygen): a parameter of the model. Keys,
-- signatures and certificates are their serialised forms, and randomness is an argument.
use contrast.Prelude.{Bytes, Option, some, ℕ, ◌≡◌, ◌<◌, Bool, true, length, All}

pub record Crypto : Type 0 where
  -- sha256.Sum256
  pub sum256 : Bytes → Bytes
  -- &key.PublicKey
  pub public_key : Bytes → Bytes
  -- ecdsa.SignASN1(rand.Reader, key, hash)
  pub sign_asn1 : ℕ → Bytes → Bytes → Option Bytes
  -- ecdsa.VerifyASN1(key, hash, sig)
  pub verify_asn1 : Bytes → Bytes → Bytes → Bool
  -- x509.ParsePKIXPublicKey, where the result is an *ecdsa.PublicKey
  pub parse_pkix : Bytes → Option Bytes
  -- x509.ParsePKCS1PublicKey
  pub parse_pkcs1 : Bytes → Option Bytes
  -- rsa.EncryptOAEP(sha256.New(), rand.Reader, key, seed, []byte("seedshare"))
  pub encrypt_oaep : ℕ → Bytes → Bytes → Option Bytes
  -- hkdf.New(sha256.New, secret, salt, info), of which len(secret) bytes are read
  pub hkdf : Bytes → Bytes → Bytes → Option Bytes
  -- keygen.ECDSA(elliptic.P384(), secret)
  pub keygen : Bytes → Option Bytes
  -- ecdsa.GenerateKey(elliptic.P384(), rand.Reader)
  pub generate_key : ℕ → Option Bytes

-- Documented behaviour of SHA-256 and ECDSA that the code relies on. No theorem assumes that
-- digests do not collide, but where its statement says so of particular values.
pub record CryptoLaws (c : Crypto) : Type 0 where
  pub length-sum256 : (b : Bytes) → length (c.sum256 b) ≡ 32
  pub bytes-sum256 : (b : Bytes) → All (λ x. x < 256) (c.sum256 b)
  pub verify-sign :
      (r : ℕ) (key hash sig : Bytes)
      → c.sign_asn1 r key hash ≡ some sig
      → c.verify_asn1 (c.public_key key) hash sig ≡ true
  pub sign_nonempty :
      (r : ℕ) (key hash sig : Bytes) → c.sign_asn1 r key hash ≡ some sig → 0 < length sig

-- ===== src/Crypto.antt =====
-- What csenc takes from Go's crypto packages and from encoding/base64, as an interface: MD5, AES in
-- CBC mode, RSA-OAEP and base64. The laws are the documented behaviour of those packages: sizes, a
-- block mode that carries its chaining value from call to call, and decoders that undo the encoders.
use cloudsync_decrypt_go.Common.{ℕ, ◌%◌, ◌≡◌, List, [], ◌++◌, length, All, Fallible, inr}
use cloudsync_decrypt_go.Wire.{Source}
use cloudsync_decrypt_go.Hex.{IsByte}

pub record Crypto : Type 1 where
  -- `md5.Sum`, and the sum of a `hash.Hash` over all that was written to it.
  pub md5 : List ℕ → List ℕ
  pub length-md5 : (b : List ℕ) → length (md5 b) ≡ 16
  pub md5-IsByte : (b : List ℕ) → All IsByte (md5 b)
  -- `aes.NewCipher`, which accepts keys of 32 bytes (and of 16 and 24).
  pub Block : Type 0
  pub new_cipher : List ℕ → Fallible Block
  pub new_cipher_32 : (key : List ℕ) → length key ≡ 32 → (b : Block) × (new_cipher key ≡ inr b)
  -- `cipher.BlockMode`: `CryptBlocks` returns the output and the mode that goes on from there.
  pub Mode : Type 0
  pub cbc_encrypter : Block → List ℕ → Mode
  pub cbc_decrypter : Block → List ℕ → Mode
  pub crypt_blocks : Mode → List ℕ → List ℕ × Mode
  pub length-crypt :
      (m : Mode) (b : List ℕ) → length b % 16 ≡ 0 → length (crypt_blocks m b).0 ≡ length b
  pub crypt-nil : (m : Mode) → crypt_blocks m [] ≡ ([], m)
  pub crypt-append :
      (m : Mode) (a b : List ℕ)
      → length a % 16 ≡ 0
      → length b % 16 ≡ 0
      → crypt_blocks m (a ++ b) ≡ (
        (crypt_blocks m a).0 ++ (crypt_blocks (crypt_blocks m a).1 b).0,
        (crypt_blocks (crypt_blocks m a).1 b).1,
      )
  pub decrypt-encrypt :
      (k : Block) (iv b : List ℕ)
      → length b % 16 ≡ 0
      → (crypt_blocks (cbc_decrypter k iv) (crypt_blocks (cbc_encrypter k iv) b).0).0 ≡ b
  -- `rsa.EncryptOAEP` and `rsa.DecryptOAEP` with SHA-1; the first draws from a random source.
  pub PublicKey : Type 0
  pub PrivateKey : Type 0
  pub oaep_encrypt : Source → PublicKey → List ℕ → Fallible (List ℕ × Source)
  pub oaep_decrypt : PrivateKey → List ℕ → Fallible (List ℕ)
  -- `base64.StdEncoding`
  pub base64_encode : List ℕ → List ℕ
  pub base64_decode : List ℕ → Fallible (List ℕ)
  pub base64_decode-encode : (b : List ℕ) → base64_decode (base64_encode b) ≡ inr b

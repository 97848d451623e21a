-- ===== src/Examples/Toy.antt =====
-- Stand-ins for Go's crypto packages and for the LZ4 codec, for which the interfaces' laws hold. The
-- cipher flips the lowest bit of each byte, the digest counts bytes, and base64 is the identity.
use cloudsync_decrypt_go.Common.{
  ℕ, ◌+◌, ◌-◌, ◌%◌, ◌≡◌, refl, ap, List, [], ◌∷◌, ◌++◌, none, inr, arith, ◌==◌, if◌then◌else◌,
  length, replicate,
}
use cloudsync_decrypt_go.Crypto.{Crypto}
use cloudsync_decrypt_go.Lz4.{Lz4}
use cloudsync_decrypt_go.Wire.{Source}
use cloudsync_decrypt_go.Common.{Error}

abbrev pub flip : ℕ → ℕ
flip b = if b % 2 == 0 then b + 1 else b - 1

flip_twice : (b : ℕ) → flip (flip b) ≡ b
flip_twice b = ground arith

abbrev pub flip_all : List ℕ → List ℕ
flip_all [] = []
flip_all (b ∷ bs) = flip b ∷ flip_all bs

pub length-flip_all : (bs : List ℕ) → length (flip_all bs) ≡ length bs
length-flip_all [] = refl
length-flip_all (b ∷ bs) = omega (arith, length-flip_all bs)

pub flip_all-append : (xs ys : List ℕ) → flip_all (xs ++ ys) ≡ flip_all xs ++ flip_all ys
flip_all-append [] ys = refl
flip_all-append (x ∷ xs) ys = ap (λ (t : List ℕ). flip x ∷ t) (flip_all-append xs ys)

pub flip_all_twice : (bs : List ℕ) → flip_all (flip_all bs) ≡ bs
flip_all_twice [] = refl
flip_all_twice (b ∷ bs) = rw (flip_twice b, flip_all_twice bs)

abbrev pub toy_crypto : Crypto
toy_crypto = record {
  md5 = λ b. replicate 16 (length b % 256);
  length-md5 = λ b. refl;
  md5-IsByte = λ b. omega arith;
  Block = List ℕ;
  new_cipher = λ key. inr key;
  new_cipher_32 = λ key h. (key, refl);
  Mode = List ℕ;
  cbc_encrypter = λ k iv. iv;
  cbc_decrypter = λ k iv. iv;
  crypt_blocks = λ m b. (flip_all b, m);
  length-crypt = λ m b h. length-flip_all b;
  crypt-nil = λ m. refl;
  crypt-append = λ m a b h k. ap (λ (t : List ℕ). (t, m)) (flip_all-append a b);
  decrypt-encrypt = λ k iv b h. flip_all_twice b;
  PublicKey = ℕ;
  PrivateKey = ℕ;
  oaep_encrypt = λ r k m. inr (m, r);
  oaep_decrypt = λ k c. inr c;
  base64_encode = λ b. b;
  base64_decode = λ b. inr b;
  base64_decode-encode = λ b. refl;
}

-- A codec that stores: each write is passed on, and the frame ends with a zero byte.
abbrev pub toy_lz4 : Lz4
toy_lz4 = record {
  Enc = Unit {0};
  enc_new = tt;
  enc_write = λ z p. (z, p ∷ []);
  enc_close = λ z. (0 ∷ []) ∷ [];
  Decoder = Unit {0};
  dec_new = tt;
  dec_take = λ d b. (d, b ∷ []);
  dec_ended = λ d. none;
  dec_at_eof = λ d. none;
}

-- A random source of 64 bytes.
abbrev pub toy_rand : Source
toy_rand = record { bytes = replicate 64 0xa5; fin = Error.eof }

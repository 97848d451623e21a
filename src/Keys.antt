-- ===== src/Keys.antt =====
-- csenc/kdf.go and csenc/hash.go: the key derivation `evpKDF` and the salted digests.
pub mod Laws
use cloudsync_decrypt_go.Common.{
  ℕ, zero, suc, ◌+◌, ◌-◌, Bool, true, false, List, [], ◌∷◌, ◌++◌, ◌||◌, not,
}
use cloudsync_decrypt_go.Common.{
  Option, none, some, ◌==◌, ltb, eqb, if◌then◌else◌, length, take, drop, Error, hash_mismatch,
}
use cloudsync_decrypt_go.Crypto.{Crypto}
use cloudsync_decrypt_go.Hex.{hex_encode}

module _ (C : Crypto) where
  open C use {md5}

  -- The inner loop: `n` more digests of the digest.
  unfoldable pub rehash : ℕ → List ℕ → List ℕ
  rehash zero digest = digest
  rehash (suc n) digest = rehash n (md5 digest)

  -- The outer loop, `for len(buf) < need`, on fuel.
  unfoldable pub kdf_loop : ℕ → ℕ → ℕ → List ℕ → List ℕ → List ℕ → List ℕ → List ℕ
  kdf_loop zero need count password salt prev buf = buf
  kdf_loop (suc fuel) need count password salt prev buf =
      let digest = rehash (count - 1) (md5 (prev ++ (password ++ salt))) in
      let more = kdf_loop fuel need count password salt digest (buf ++ digest) in
      if ltb (length buf) need then more else buf

  -- `key` and `iv`. Each round adds a digest, so `need` rounds are enough.
  unfoldable pub evp_kdf : List ℕ → List ℕ → ℕ → ℕ → ℕ → List ℕ × List ℕ
  evp_kdf password salt count key_len iv_len =
      let need = key_len + iv_len in
      let buf = kdf_loop need need (if ltb count 1 then 1 else count) password salt [] [] in
      (take key_len buf, take iv_len (drop key_len buf))

  unfoldable pub salted_digest : List ℕ → List ℕ → List ℕ
  salted_digest salt_ascii b = salt_ascii ++ hex_encode (md5 (salt_ascii ++ b))

  -- The error, if the recorded hash does not fit the secret.
  unfoldable pub verify_key_hash : List ℕ → List ℕ → List ℕ → Option Error
  verify_key_hash salted_hash secret label =
      if eqb salted_hash [] || ltb (length salted_hash) 10
      then none
      else if not (eqb (salted_digest (take 10 salted_hash) secret) salted_hash)
      then some (hash_mismatch label)
      else none

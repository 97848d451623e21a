-- ===== src/Keys/Laws.antt =====
-- csenc/kdf.go and csenc/hash.go: the sizes of derived keys, and that a digest passes its own check.
use cloudsync_decrypt_go.Common.{
  ℕ, zero, suc, ◌+◌, ◌-◌, ◌≤◌, ◌<◌, ◌≡◌, ◌↔◌, ◌⊎◌, inl, inr, refl, sym, ap, ◌∙◌, false, ltb→lt,
  lt→ltb, ltb-false, List, [], ◌∷◌, ◌++◌,
}
use cloudsync_decrypt_go.Common.{
  none, arith, ltb, eqb, eqb_refl, eqb→eq, Bool-cases, if◌then◌else◌, length, take, drop,
  length-append, length-take, length-drop, take_seam,
}
use cloudsync_decrypt_go.Crypto.{Crypto}
use cloudsync_decrypt_go.Hex.{hex_encode}
use cloudsync_decrypt_go.Keys.{rehash, kdf_loop, evp_kdf, salted_digest, verify_key_hash}

length-buffer : (xs ys : List ℕ) → length (xs ++ ys) ≡ length xs + length ys
length-buffer = length-append

module _ (C : Crypto) where
  open C use {md5, length-md5}

  length-rehash : (n : ℕ) (d : List ℕ) → length d ≡ 16 → length (rehash C n d) ≡ 16
  unfolding rehash
  length-rehash zero d h = h
  length-rehash (suc n) d h = length-rehash n (md5 d) (length-md5 d)

  -- The loop ends by its own test: its fuel is enough.
  kdf_loop_done :
      (fuel need count : ℕ) (password salt prev buf : List ℕ)
      → need ≤ fuel + length buf
      → need ≤ length (kdf_loop C fuel need count password salt prev buf)
  unfolding kdf_loop
  kdf_loop_done zero need count password salt prev buf h = omega arith
  kdf_loop_done (suc fuel) need count password salt prev buf h =
      elim (Bool-cases (ltb (length buf) need)) [
        | inl t ↦ rw t (
            kdf_loop_done fuel need count password salt digest (buf ++ digest) (
              omega (
                arith,
                length-buffer buf digest,
                length-rehash (count - 1) (md5 (prev ++ (password ++ salt))) (length-md5 _),
              )))
        | inr t ↦ rw t (ground arith)
      ]
    where
      digest : List ℕ
      digest = rehash C (count - 1) (md5 (prev ++ (password ++ salt)))

  -- `evpKDF` returns a key and an initialisation vector of exactly the lengths that were asked for.
  pub evp_kdf_lengths :
      (password salt : List ℕ) (count key_len iv_len : ℕ)
      → (length (evp_kdf C password salt count key_len iv_len).0 ≡ key_len)
        × (length (evp_kdf C password salt count key_len iv_len).1 ≡ iv_len)
  unfolding evp_kdf
  evp_kdf_lengths password salt count key_len iv_len =
      let need = key_len + iv_len in
      let buf = kdf_loop C need need (if ltb count 1 then 1 else count) password salt [] [] in
      let full =
        kdf_loop_done need need (if ltb count 1 then 1 else count) password salt [] []
          (omega arith) in
      (
        omega (arith, length-take key_len buf),
        omega (arith, length-take iv_len (drop key_len buf), length-drop key_len buf),
      )

  -- The check of a hash of 10 bytes or more, which has a prefix to take.
  verify_long :
      (h secret label : List ℕ)
      → 10 ≤ length h
      → (verify_key_hash C h secret label ≡ none) ↔ (salted_digest C (take 10 h) secret ≡ h)
  unfolding verify_key_hash
  verify_long (c ∷ cs) secret label n =
      rw long (elim (Bool-cases (eqb (salted_digest C (take 10 (c ∷ cs)) secret) (c ∷ cs))) [
        | inl e ↦ rw e (λ _. eqb→eq _ _ e, λ _. refl)
        | inr e ↦
            rw e (λ p. cc, λ p. cc (e, ap (λ (t : List ℕ). eqb t (c ∷ cs)) p, eqb_refl (c ∷ cs)))
      ])
    where
      long : ltb (suc (length cs)) 10 ≡ false
      long = ground arith
  verify_long [] secret label n = absurd (omega arith)

  verify_short : (h secret label : List ℕ) → length h < 10 → verify_key_hash C h secret label ≡ none
  unfolding verify_key_hash
  verify_short [] secret label n = refl
  verify_short (c ∷ cs) secret label n = rw (lt→ltb (suc (length cs)) 10 n)

  -- For every recorded hash, `verifyKeyHash` reports no error exactly if the hash is shorter than 10
  -- bytes, or is, for some salt of 10 bytes, that salt followed by the MD5 of the salt and the secret
  -- in hexadecimal.
  pub verify_key_hash_iff :
      (h secret label : List ℕ)
      → (verify_key_hash C h secret label ≡ none) ↔ (
          (length h < 10)
          ⊎ ((salt : List ℕ) × (length salt ≡ 10)
              × (h ≡ salt ++ hex_encode (md5 (salt ++ secret)))))
  verify_key_hash_iff h secret label = (there, back)
    where
      there :
          verify_key_hash C h secret label ≡ none
          → (length h < 10)
            ⊎ ((salt : List ℕ) × (length salt ≡ 10)
                × (h ≡ salt ++ hex_encode (md5 (salt ++ secret))))
      there p = elim (Bool-cases (ltb (length h) 10)) [
        | inl e ↦ inl (ltb→lt (length h) 10 e)
        | inr e ↦
            let n : 10 ≤ length h = ltb-false (length h) 10 e in
            inr (
              take 10 h,
              omega (arith, length-take 10 h),
              sym (unfold salted_digest in (verify_long h secret label n).0 p),
            )
      ]

      back :
          (length h < 10)
            ⊎ ((salt : List ℕ) × (length salt ≡ 10)
                × (h ≡ salt ++ hex_encode (md5 (salt ++ secret))))
          → verify_key_hash C h secret label ≡ none
      back (inl n) = verify_short h secret label n
      back (inr (salt, ten, seam)) =
          let salt_of : take 10 h ≡ salt = ap (take 10) seam ∙ take_seam 10 salt _ (sym ten) in
          let n : 10 ≤ length h =
            omega (arith, ap length seam, length-buffer salt (hex_encode (md5 (salt ++ secret)))) in
          (verify_long h secret label n).1 (
            unfold salted_digest in
            ap (λ (t : List ℕ). t ++ hex_encode (md5 (t ++ secret))) salt_of ∙ sym seam)

  -- What `saltedDigest` makes over a prefix of 10 bytes passes `verifyKeyHash` for the same secret.
  pub verify-salted_digest :
      (prefix secret label : List ℕ)
      → length prefix ≡ 10
      → verify_key_hash C (salted_digest C prefix secret) secret label ≡ none
  verify-salted_digest prefix secret label h =
      (verify_key_hash_iff (salted_digest C prefix secret) secret label).1
        (inr (prefix, h, unfold salted_digest in refl))

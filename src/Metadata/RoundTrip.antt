-- ===== src/Metadata/RoundTrip.antt =====
-- csenc/decrypt.go against csenc/encrypt.go: what `absorb` makes of the metadata dicts that are written.
use cloudsync_decrypt_go.Common.{
  ℕ, ◌<◌, ◌^◌, ◌≡◌, refl, ap, ◌∙◌, Bool, true, false, List, [], ◌∷◌, Option, none, some, arith, ltb,
  eqb, not, length, if◌then◌else◌, codes, Result, ok,
}
use cloudsync_decrypt_go.Common.Signed.{pos, to_int64_small}
use cloudsync_decrypt_go.Wire.{
  Value, Members, dict, str, int, no_members, member, lookup, lookup_members,
}
use cloudsync_decrypt_go.Crypto.{Crypto}
use cloudsync_decrypt_go.Encoder.{LeadingMetadata}
use cloudsync_decrypt_go.Encoder.Emits.{member_when}
use cloudsync_decrypt_go.Encoder.Dicts.{HasNumbers, leading_members}
use cloudsync_decrypt_go.Metadata.{
  Metadata, new_metadata, decode_b64, absorb_version, absorb, absorb_entry, absorb_members,
}

-- A wrapped key is recorded if there is one.
abbrev pub key_of : List ℕ → Option (List ℕ)
key_of b = if ltb 0 (length b) then some b else none

-- The metadata that the leading dict records.
abbrev pub recorded : LeadingMetadata → Metadata
recorded m = record {
  major = m.major;
  minor = m.minor;
  salt = m.salt;
  digest = codes "md5";
  enc_key1 = key_of m.enc_key1;
  enc_key2 = key_of m.enc_key2;
  key1_hash = m.key1_hash;
  session_key_hash = m.sess_key_hash;
  plaintext_md5 = [];
  filename = m.filename;
  compress = m.compress;
  encrypt = m.encrypt;
}

empty_of : (b : List ℕ) → ltb 0 (length b) ≡ false → [] ≡ b
empty_of [] h = refl
empty_of (x ∷ b) h = absurd (ground arith)

empty_text : (b : List ℕ) → not (eqb b []) ≡ false → [] ≡ b
empty_text [] h = refl
empty_text (x ∷ b) h = cc

module _ (C : Crypto) where
  open C use {base64_encode, base64_decode-encode}

  absorb_more :
      (k v : Value) (ms : Members) (m m' : Metadata) {r : Result Metadata}
      → absorb_entry C k v m ≡ ok m'
      → absorb_members C ms m' ≡ r
      → absorb_members C (member k v ms) m ≡ r
  unfolding absorb_members
  absorb_more k v ms m m' e h = rw e h

  absorb_end : (m : Metadata) → absorb_members C no_members m ≡ ok m
  unfolding absorb_members
  absorb_end m = refl

  -- An entry that is written on a condition.
  absorb_when :
      (b : Bool) (k : List ℕ) (v : Value) (ms : Members) (m m' : Metadata) {r : Result Metadata}
      → (b ≡ true → absorb_entry C (str k) v m ≡ ok m')
      → (b ≡ false → m ≡ m')
      → absorb_members C ms m' ≡ r
      → absorb_members C (member_when b k v ms) m ≡ r
  absorb_when true k v ms m m' e f h = absorb_more (str k) v ms m m' (e refl) h
  absorb_when false k v ms m m' e f h = ap (absorb_members C ms) (f refl) ∙ h

  version_entry :
      (a b : ℕ) (m : Metadata)
      → a < 2 ^ 63
      → b < 2 ^ 63
      → absorb_entry C
          (str (codes "version"))
          (dict (
            member (str (codes "major")) (int a) (member (str (codes "minor")) (int b) no_members)))
          m
        ≡ ok (record m { major = pos a; minor = pos b })
  unfolding absorb_entry absorb absorb_version lookup lookup_members codes
  version_entry a b m ha hb = rw (to_int64_small a ha, to_int64_small b hb)

  text_entry :
      (s : List ℕ) (m : Metadata)
      → (absorb_entry C (str (codes "type")) (str s) m ≡ ok m)
        × (absorb_entry C (str (codes "salt")) (str s) m ≡ ok (record m { salt = s }))
        × (absorb_entry C (str (codes "digest")) (str s) m ≡ ok (record m { digest = s }))
        × (absorb_entry C (str (codes "key1_hash")) (str s) m ≡ ok (record m { key1_hash = s }))
        × (absorb_entry C (str (codes "session_key_hash")) (str s) m
            ≡ ok (record m { session_key_hash = s }))
        × (absorb_entry C (str (codes "file_md5")) (str s) m ≡ ok (record m { plaintext_md5 = s }))
        × (absorb_entry C (str (codes "file_name")) (str s) m ≡ ok (record m { filename = s }))
  unfolding absorb_entry absorb codes
  text_entry s m = (refl, refl, refl, refl, refl, refl, refl)

  key_entry :
      (b : List ℕ) (m : Metadata)
      → (absorb_entry C (str (codes "enc_key1")) (str (base64_encode b)) m
          ≡ ok (record m { enc_key1 = some b }))
        × (absorb_entry C (str (codes "enc_key2")) (str (base64_encode b)) m
            ≡ ok (record m { enc_key2 = some b }))
  unfolding absorb_entry absorb decode_b64 codes
  key_entry b m = (rw (base64_decode-encode b), rw (base64_decode-encode b))

  number_entry :
      (n : ℕ) (m : Metadata)
      → n < 2 ^ 63
      → (absorb_entry C (str (codes "compress")) (int n) m ≡ ok (record m { compress = pos n }))
        × (absorb_entry C (str (codes "encrypt")) (int n) m ≡ ok (record m { encrypt = pos n }))
  unfolding absorb_entry absorb codes
  number_entry n m h = (rw (to_int64_small n h), rw (to_int64_small n h))

  -- The key that is recorded on a condition, in both cases.
  key1_when :
      (b : List ℕ) (m : Metadata)
      → ltb 0 (length b) ≡ true
      → absorb_entry C (str (codes "enc_key1")) (str (base64_encode b)) m
        ≡ ok (record m { enc_key1 = key_of b })
  key1_when b m t = rw t (key_entry b m).0

  key2_when :
      (b : List ℕ) (m : Metadata)
      → ltb 0 (length b) ≡ true
      → absorb_entry C (str (codes "enc_key2")) (str (base64_encode b)) m
        ≡ ok (record m { enc_key2 = key_of b })
  key2_when b m t = rw t (key_entry b m).1

  -- Absorbing the members of the leading dict, whichever of the optional ones it has, records
  -- exactly the values that `writeLeadingMetadata` was given. The four numbers have to be int64 values
  -- that are not negative.
  pub absorb-leading_members :
      (m : LeadingMetadata)
      → HasNumbers m
      → absorb_members C (leading_members base64_encode m) new_metadata ≡ ok (recorded m)
  unfolding leading_members
  absorb-leading_members m n =
      rw (n.major_ok.1, n.minor_ok.1, n.compress_ok.1, n.encrypt_ok.1) chain
    where
      m₁ : Metadata
      m₁ = record new_metadata { major = pos n.major_ok.0; minor = pos n.minor_ok.0 }

      m₂ : Metadata
      m₂ = record m₁ { salt = m.salt }

      m₃ : Metadata
      m₃ = record m₂ { digest = codes "md5" }

      m₄ : Metadata
      m₄ = record m₃ { enc_key1 = key_of m.enc_key1 }

      m₅ : Metadata
      m₅ = record m₄ { key1_hash = m.key1_hash }

      m₆ : Metadata
      m₆ = record m₅ { enc_key2 = key_of m.enc_key2 }

      m₇ : Metadata
      m₇ = record m₆ { session_key_hash = m.sess_key_hash }

      m₈ : Metadata
      m₈ = record m₇ { compress = pos n.compress_ok.0 }

      m₉ : Metadata
      m₉ = record m₈ { encrypt = pos n.encrypt_ok.0 }

      done : Metadata
      done = record m₉ { filename = m.filename }

      chain :
          absorb_members C
            (member (str (codes "type")) (str (codes "metadata")) (
              member
                (str (codes "version"))
                (dict (
                  member
                    (str (codes "major"))
                    (int n.major_ok.0)
                    (member (str (codes "minor")) (int n.minor_ok.0) no_members)))
                (member_when (ltb 0 (length m.salt)) (codes "salt") (str m.salt) (
                  member (str (codes "digest")) (str (codes "md5")) (
                    member_when
                      (ltb 0 (length m.enc_key1))
                      (codes "enc_key1")
                      (str (base64_encode m.enc_key1))
                      (member_when
                        (not (eqb m.key1_hash []))
                        (codes "key1_hash")
                        (str m.key1_hash)
                        (member_when
                          (ltb 0 (length m.enc_key2))
                          (codes "enc_key2")
                          (str (base64_encode m.enc_key2))
                          (member (str (codes "session_key_hash")) (str m.sess_key_hash) (
                            member (str (codes "compress")) (int n.compress_ok.0) (
                              member (str (codes "encrypt")) (int n.encrypt_ok.0) (
                                member_when
                                  (not (eqb m.filename []))
                                  (codes "file_name")
                                  (str m.filename)
                                  no_members)))))))))))
            new_metadata
          ≡ ok done
      chain = absorb_more _ _ _ new_metadata new_metadata (text_entry _ new_metadata).0 (
          absorb_more _ _ _ new_metadata m₁
            (version_entry _ _ new_metadata n.major_ok.2 n.minor_ok.2)
            (absorb_when _ _ _ _ m₁ m₂ (λ _. (text_entry _ m₁).1)
              (λ e. ap (λ (x : List ℕ). record m₁ { salt = x }) (empty_of m.salt e))
              (absorb_more _ _ _ m₂ m₃ (text_entry _ m₂).2 (
                absorb_when _ _ _ _ m₃ m₄ (key1_when m.enc_key1 m₃) (λ e. rw e)
                  (absorb_when _ _ _ _ m₄ m₅ (λ _. (text_entry _ m₄).3)
                    (λ e.
                      ap (λ (x : List ℕ). record m₄ { key1_hash = x }) (empty_text m.key1_hash e))
                    (absorb_when _ _ _ _ m₅ m₆ (key2_when m.enc_key2 m₅) (λ e. rw e)
                      (absorb_more _ _ _ m₆ m₇ (text_entry _ m₆).4 (
                        absorb_more _ _ _ m₇ m₈ (number_entry _ m₇ n.compress_ok.2).0 (
                          absorb_more _ _ _ m₈ m₉ (number_entry _ m₈ n.encrypt_ok.2).1 (
                            absorb_when _ _ _ _ m₉ done (λ _. (text_entry _ m₉).6)
                              (λ e.
                                ap (λ (x : List ℕ). record m₉ { filename = x })
                                  (empty_text m.filename e))
                              (absorb_end done)))))))))))

  -- The trailing dict records the hash, and nothing else.
  pub absorb-final_members :
      (h : List ℕ) (m : Metadata)
      → absorb_members C
          (member
            (str (codes "type"))
            (str (codes "metadata"))
            (member (str (codes "file_md5")) (str h) no_members))
          m
        ≡ ok (record m { plaintext_md5 = h })
  absorb-final_members h m =
      let last = member (str (codes "file_md5")) (str h) no_members in
      let m' = record m { plaintext_md5 = h } in
      absorb_more _ _ last m m (text_entry _ m).0
        (absorb_more _ _ no_members m m' (text_entry h m).5 (absorb_end m'))

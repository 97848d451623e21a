-- ===== src/Encoder/Dicts.antt =====
-- The dicts of csenc/encrypt.go: each writer puts out the byte form of one value, in full or with an
-- error, and on a writer that never fails exactly when the value fits the wire format.
use cloudsync_decrypt_go.Common.{ℕ, ◌^◌, ◌<◌, ◌≡◌, List, [], ◌++◌}
use cloudsync_decrypt_go.Common.{none, ltb, length, codes, not, eqb}
use cloudsync_decrypt_go.Common.Signed.{pos, nat_part}
use cloudsync_decrypt_go.Wire.{Value, Members, dict, bytes, str, int, no_members, member}
use cloudsync_decrypt_go.Wire.Emit.{emit, Fits}
use cloudsync_decrypt_go.Io.{Out}
use Prim.Native.String.{String}
use cloudsync_decrypt_go.Encoder.{
  str_pair, LeadingMetadata, version_pair, leading_body, write_leading_metadata, data_body,
  write_data_dict, final_body, write_final_metadata,
}
use cloudsync_decrypt_go.Encoder.Emits.{
  Reliable, Writes, WritesPair, str_pair-Writes, int_pair-Writes, bytes_pair-Writes, members_end,
  members_more, members_when, member_when, dict_Writes, dict_pair, Writes-encode,
  Writes-encode_total,
}

-- The value of one `data` dict.
unfoldable pub data_value : List ℕ → Value
data_value b = dict (
    member (str (codes "type")) (str (codes "data"))
      (member (str (codes "data")) (bytes b) no_members))

-- The trailing metadata dict.
unfoldable pub final_value : List ℕ → Value
final_value md5hex = dict (
    member (str (codes "type")) (str (codes "metadata"))
      (member (str (codes "file_md5")) (str md5hex) no_members))

-- The leading metadata dict.
unfoldable pub leading_members : (List ℕ → List ℕ) → LeadingMetadata → Members
leading_members base64 m = member (str (codes "type")) (str (codes "metadata")) (
    member (str (codes "version"))
      (dict (
        member (str (codes "major")) (int (nat_part m.major))
          (member (str (codes "minor")) (int (nat_part m.minor)) no_members)))
      (member_when (ltb 0 (length m.salt)) (codes "salt") (str m.salt) (
        member (str (codes "digest")) (str (codes "md5")) (
          member_when (ltb 0 (length m.enc_key1)) (codes "enc_key1") (str (base64 m.enc_key1)) (
            member_when (not (eqb m.key1_hash [])) (codes "key1_hash") (str m.key1_hash) (
              member_when (ltb 0 (length m.enc_key2)) (codes "enc_key2") (str (base64 m.enc_key2)) (
                member (str (codes "session_key_hash")) (str m.sess_key_hash) (
                  member (str (codes "compress")) (int (nat_part m.compress)) (
                    member (str (codes "encrypt")) (int (nat_part m.encrypt)) (
                      member_when (not (eqb m.filename [])) (codes "file_name") (str m.filename)
                        no_members))))))))))

abbrev pub leading_value : (List ℕ → List ℕ) → LeadingMetadata → Value
leading_value base64 m = dict (leading_members base64 m)

-- The four numbers are int64 values that are not negative.
pub record HasNumbers (m : LeadingMetadata) : Type 0 where
  pub major_ok : (n : ℕ) × (m.major ≡ pos n) × (n < 2 ^ 63)
  pub minor_ok : (n : ℕ) × (m.minor ≡ pos n) × (n < 2 ^ 63)
  pub compress_ok : (n : ℕ) × (m.compress ≡ pos n) × (n < 2 ^ 63)
  pub encrypt_ok : (n : ℕ) × (m.encrypt ≡ pos n) × (n < 2 ^ 63)

module _ (O : Out) where
  open O use {W, written}

  data_body-Writes :
      (b : List ℕ) → Writes O (data_body O b) (emit (data_value b)) (Fits (data_value b))
  unfolding data_body data_value
  data_body-Writes b = dict_Writes O (
      members_more O (str_pair-Writes O _ _)
        (members_more O (bytes_pair-Writes O _ b) (members_end O)))

  final_body-Writes :
      (h : List ℕ) → Writes O (final_body O h) (emit (final_value h)) (Fits (final_value h))
  unfolding final_body final_value
  final_body-Writes h = dict_Writes O (
      members_more O (str_pair-Writes O _ _)
        (members_more O (str_pair-Writes O _ h) (members_end O)))

  version_pair-Writes :
      (a b : ℕ)
      → a < 2 ^ 63
      → b < 2 ^ 63
      → WritesPair O (version_pair O (pos a) (pos b)) (codes "version") (
          dict (
            member (str (codes "major")) (int a) (member (str (codes "minor")) (int b) no_members)))
  unfolding version_pair
  version_pair-Writes a b ha hb = dict_pair O _ (
      members_more O (int_pair-Writes O _ a ha)
        (members_more O (int_pair-Writes O _ b hb) (members_end O)))

  module _ (base64 : List ℕ → List ℕ) where
    leading_body-Writes :
        (m : LeadingMetadata)
        → HasNumbers m
        → Writes O
            (leading_body O base64 m)
            (emit (leading_value base64 m))
            (Fits (leading_value base64 m))
    unfolding leading_body leading_members
    leading_body-Writes m n =
        rw (n.major_ok.1, n.minor_ok.1, n.compress_ok.1, n.encrypt_ok.1)
          (dict_Writes O (
            members_more O (text "type" (codes "metadata")) (
              members_more O (version_pair-Writes _ _ n.major_ok.2 n.minor_ok.2) (
                members_when O (ltb 0 (length m.salt)) (text "salt" m.salt) (
                  members_more O (text "digest" (codes "md5")) (
                    members_when O (ltb 0 (length m.enc_key1)) (text "enc_key1" (base64 m.enc_key1))
                      (members_when O (not (eqb m.key1_hash [])) (text "key1_hash" m.key1_hash) (
                        members_when O (ltb 0 (length m.enc_key2))
                          (text "enc_key2" (base64 m.enc_key2))
                          (members_more O (text "session_key_hash" m.sess_key_hash) (
                            members_more O (int_pair-Writes O _ _ n.compress_ok.2) (
                              members_more O (int_pair-Writes O _ _ n.encrypt_ok.2) (
                                members_when O (not (eqb m.filename []))
                                  (text "file_name" m.filename) (members_end O)))))))))))))
      where
        text : (k : String) (v : List ℕ) → WritesPair O (str_pair O (codes k) v) (codes k) (str v)
        text k v = str_pair-Writes O (codes k) v

  -- `writeDataDict` that returns no error was given a chunk whose data dict fits the wire format, and
  -- has written the byte form of that dict; on a writer that never fails such a chunk is always written.
  pub write_data_dict_lem :
      (b : List ℕ) (w : W)
      → ((write_data_dict O b w).1 ≡ none
          → Fits (data_value b)
            × (written (write_data_dict O b w).0 ≡ written w ++ emit (data_value b)))
        × (Reliable O → Fits (data_value b) → (write_data_dict O b w).1 ≡ none)
  unfolding write_data_dict
  write_data_dict_lem b w =
      (Writes-encode O w (data_body-Writes b), Writes-encode_total O w (data_body-Writes b))

  -- The same for `writeFinalMetadata` and the trailing dict.
  pub write_final_metadata_lem :
      (h : List ℕ) (w : W)
      → ((write_final_metadata O h w).1 ≡ none
          → Fits (final_value h)
            × (written (write_final_metadata O h w).0 ≡ written w ++ emit (final_value h)))
        × (Reliable O → Fits (final_value h) → (write_final_metadata O h w).1 ≡ none)
  unfolding write_final_metadata
  write_final_metadata_lem h w =
      (Writes-encode O w (final_body-Writes h), Writes-encode_total O w (final_body-Writes h))

  -- `writeLeadingMetadata`, on numbers that are int64 values and not negative: without an error the
  -- metadata dict fits the wire format and its byte form has been written; on a writer that never
  -- fails a dict that fits is always written.
  pub write_leading_metadata_lem :
      (base64 : List ℕ → List ℕ) (m : LeadingMetadata) (w : W)
      → HasNumbers m
      → ((write_leading_metadata O base64 m w).1 ≡ none
          → Fits (leading_value base64 m)
            × (written (write_leading_metadata O base64 m w).0
                ≡ written w ++ emit (leading_value base64 m)))
        × (Reliable O
            → Fits (leading_value base64 m)
            → (write_leading_metadata O base64 m w).1 ≡ none)
  unfolding write_leading_metadata
  write_leading_metadata_lem base64 m w n = (
    Writes-encode O w (leading_body-Writes base64 m n),
    Writes-encode_total O w (leading_body-Writes base64 m n),
  )

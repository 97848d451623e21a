-- ===== src/Examples/Encoding.antt =====
-- The padding, the key derivation and the dict writers at concrete inputs.
use cloudsync_decrypt_go.Common.{
  ℕ, ◌≡◌, ◌<◌, ◌⊎◌, ◌↔◌, refl, List, [], ◌∷◌, ◌++◌, none, some, codes, ok, err, arith, length,
  replicate, not_aes_aligned, pad_out_of_range, pad_inconsistent, hash_mismatch,
}
use cloudsync_decrypt_go.Common.Signed.{pos}
use cloudsync_decrypt_go.Wire.Emit.{emit, Fits}
use cloudsync_decrypt_go.Io.{buffer}
use cloudsync_decrypt_go.Hex.{hex_encode, hex_digit}
use cloudsync_decrypt_go.Padding.{pkcs7_pad, unpad_pkcs7, all_are}
use cloudsync_decrypt_go.Padding.RoundTrip.{unpad-eq-ok_iff}
use cloudsync_decrypt_go.Encoder.{LeadingMetadata, write_data_dict, write_leading_metadata}
use cloudsync_decrypt_go.Encoder.Emits.{Reliable}
use cloudsync_decrypt_go.Encoder.Dicts.{
  leading_members, data_value, leading_value, HasNumbers, write_data_dict_lem,
  write_leading_metadata_lem,
}
use cloudsync_decrypt_go.Metadata.{absorb_members, new_metadata}
use cloudsync_decrypt_go.Metadata.RoundTrip.{recorded, absorb-leading_members}
use cloudsync_decrypt_go.Keys.{evp_kdf, salted_digest, verify_key_hash}
use cloudsync_decrypt_go.Keys.Laws.{evp_kdf_lengths, verify_key_hash_iff}
use cloudsync_decrypt_go.Examples.Toy.{toy_crypto}

abbrev short : List ℕ
short = codes "csenc"

unpad-eq-ok_iff_example :
    (unpad_pkcs7 (pkcs7_pad short 16) ≡ ok short) ↔ (pkcs7_pad short 16 ≡ pkcs7_pad short 16)
unpad-eq-ok_iff_example = unpad-eq-ok_iff (pkcs7_pad short 16) short

unpad_unaligned : unpad_pkcs7 (1 ∷ []) ≡ err (not_aes_aligned 1)
unfolding unpad_pkcs7
unpad_unaligned = refl

unpad_zero : unpad_pkcs7 (replicate 16 0) ≡ err (pad_out_of_range 0)
unfolding unpad_pkcs7
unpad_zero = refl

unpad_mixed : unpad_pkcs7 (replicate 15 1 ++ (2 ∷ [])) ≡ err pad_inconsistent
unfolding unpad_pkcs7 all_are
unpad_mixed = refl

write_data_dict_lem_example :
    ((write_data_dict buffer (5 ∷ 6 ∷ []) (9 ∷ [])).1 ≡ none
      → Fits (data_value (5 ∷ 6 ∷ []))
        × ((write_data_dict buffer (5 ∷ 6 ∷ []) (9 ∷ [])).0
            ≡ (9 ∷ []) ++ emit (data_value (5 ∷ 6 ∷ []))))
    × (Reliable buffer
        → Fits (data_value (5 ∷ 6 ∷ []))
        → (write_data_dict buffer (5 ∷ 6 ∷ []) (9 ∷ [])).1 ≡ none)
write_data_dict_lem_example = write_data_dict_lem buffer (5 ∷ 6 ∷ []) (9 ∷ [])

abbrev sample_metadata : LeadingMetadata
sample_metadata = record {
  major = pos 3;
  minor = pos 1;
  salt = codes "aB3dE6gH";
  enc_key1 = replicate 32 7;
  enc_key2 = [];
  key1_hash = codes "0123456789abcdef";
  sess_key_hash = codes "fedcba9876543210";
  compress = pos 1;
  encrypt = pos 1;
  filename = codes "a.txt";
}

sample_numbers : HasNumbers sample_metadata
sample_numbers = record {
  major_ok = (3, refl, omega arith);
  minor_ok = (1, refl, omega arith);
  compress_ok = (1, refl, omega arith);
  encrypt_ok = (1, refl, omega arith);
}

write_leading_metadata_lem_example :
    ((write_leading_metadata buffer (λ b. b) sample_metadata []).1 ≡ none
      → Fits (leading_value (λ b. b) sample_metadata)
        × ((write_leading_metadata buffer (λ b. b) sample_metadata []).0
            ≡ [] ++ emit (leading_value (λ b. b) sample_metadata)))
    × (Reliable buffer
        → Fits (leading_value (λ b. b) sample_metadata)
        → (write_leading_metadata buffer (λ b. b) sample_metadata []).1 ≡ none)
write_leading_metadata_lem_example =
    write_leading_metadata_lem buffer (λ b. b) sample_metadata [] sample_numbers

evp_kdf_lengths_example :
    (length (evp_kdf toy_crypto short (1 ∷ 2 ∷ []) 3 32 16).0 ≡ 32)
    × (length (evp_kdf toy_crypto short (1 ∷ 2 ∷ []) 3 32 16).1 ≡ 16)
evp_kdf_lengths_example = evp_kdf_lengths toy_crypto short (1 ∷ 2 ∷ []) 3 32 16

abbrev stored_hash : List ℕ
stored_hash = codes "0123456789" ++ replicate 32 0

verify_key_hash_iff_example : (verify_key_hash toy_crypto stored_hash short short ≡ none) ↔ (
    (length stored_hash < 10)
    ⊎ ((salt : List ℕ) × (length salt ≡ 10)
        × (stored_hash ≡ salt ++ hex_encode (toy_crypto.md5 (salt ++ short)))))
verify_key_hash_iff_example = verify_key_hash_iff toy_crypto stored_hash short short

-- The toy digest of 15 bytes is 15, sixteen times over.
verify_right :
    verify_key_hash toy_crypto (codes "0123456789" ++ hex_encode (replicate 16 15)) short short
    ≡ none
unfolding verify_key_hash salted_digest hex_encode codes hex_digit
verify_right = refl

verify_wrong : verify_key_hash toy_crypto stored_hash short short ≡ some (hash_mismatch short)
unfolding verify_key_hash salted_digest hex_encode codes hex_digit
verify_wrong = refl

absorb-leading_members_example :
    absorb_members toy_crypto
      (leading_members toy_crypto.base64_encode sample_metadata)
      new_metadata
    ≡ ok (recorded sample_metadata)
absorb-leading_members_example = absorb-leading_members toy_crypto sample_metadata sample_numbers

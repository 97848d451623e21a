-- ===== src/Decrypt/Halts.antt =====
-- csenc/decrypt.go: the steps of `Decrypt` return, whatever they are given. `Halts` says of a result that
-- it is a value or an error.
use cloudsync_decrypt_go.Common.{
  ℕ, inl, inr, List, Option, none, some, Error, Result, map_error, call, Fallible, Post, value,
  failure, Post-if, Post-bind, leb, length, eqb, codes, not, ◌&&◌, ◌||◌, ltb, ◌-◌, drop,
  if◌then◌else◌, in_field, read_magic, read_magic_checksum, bad_magic, magic_checksum_mismatch,
  key1_not_aligned, key1_padding, rsa_failed, session_not_hex,
}
use cloudsync_decrypt_go.Wire.{
  Value, Members, dict, bytes, str, int, nil, no_members, member, Source, read_full,
}
use cloudsync_decrypt_go.Crypto.{Crypto}
use cloudsync_decrypt_go.Hex.{hex_encode, hex_decode-Post}
use cloudsync_decrypt_go.Encoder.{file_magic, magic_checksum_len}
use cloudsync_decrypt_go.Session.{kdf_rounds}
use cloudsync_decrypt_go.Keys.{evp_kdf, verify_key_hash}
use cloudsync_decrypt_go.Common.Signed.{is_pos}
use cloudsync_decrypt_go.Padding.{unpad_pkcs7, is_unaligned, last, all_are, block_size}
use cloudsync_decrypt_go.Metadata.{
  Metadata, check_modes, decode_b64, absorb, absorb_entry, absorb_members,
}
use cloudsync_decrypt_go.Recover.{
  Options, require, consume_magic, unwrap, unwrap_with_password, unwrap_with_rsa,
  recover_session_key,
}

abbrev pub Halts : {A : Type 0} → Result A → Type 0
Halts r = Post (λ a. Unit {0}) r

call-Halts : {A : Type 0} (r : Fallible A) → Halts (call r)
call-Halts (inl e) = failure
call-Halts (inr a) = value tt

require-Halts : (e : Option Error) → Halts (require e)
require-Halts none = value tt
require-Halts (some e) = failure

map_error-Halts : {A : Type 0} (g : Error → Error) {r : Result A} → Halts r → Halts (map_error g r)
map_error-Halts g (value h) = value tt
map_error-Halts g failure = failure

pub check_modes-Halts : (m : Metadata) → Halts (check_modes m)
unfolding check_modes
check_modes-Halts m =
    Post-if (not (is_pos m.encrypt 1)) failure
      (Post-if (not (is_pos m.compress 0) && not (is_pos m.compress 1)) failure (value tt))

read_full-Halts : (n : ℕ) (s : Source) → Halts (read_full n s)
unfolding read_full
read_full-Halts n s = Post-if (leb n (length s.bytes)) (value tt) failure

pub unpad-Halts : (b : List ℕ) → Halts (unpad_pkcs7 b)
unfolding unpad_pkcs7
unpad-Halts b = Post-if (is_unaligned b) failure (
    Post-if (ltb (last b) 1 || ltb block_size (last b)) failure
      (Post-if (all_are (last b) (drop (length b - last b) b)) (value tt) failure))

module _ (C : Crypto) where
  open C use {PrivateKey}

  decode_b64-Halts : (v : Value) → Halts (decode_b64 C v)
  unfolding decode_b64
  decode_b64-Halts (str s) = call-Halts (C.base64_decode s)
  decode_b64-Halts (bytes s) = call-Halts (C.base64_decode s)
  decode_b64-Halts nil = failure
  decode_b64-Halts (dict ms) = failure
  decode_b64-Halts (int n) = failure

  absorb-Halts : (k : List ℕ) (v : Value) (m : Metadata) → Halts (absorb C k v m)
  unfolding absorb
  absorb-Halts k v m =
      (Post-if (eqb k (codes "version")) (value tt) (
        Post-if (eqb k (codes "salt")) (value tt) (
          Post-if (eqb k (codes "digest")) (value tt) (
            Post-if (eqb k (codes "enc_key1"))
              (Post-bind (map_error-Halts (in_field (codes "enc_key1")) (decode_b64-Halts v))
                (λ b h. value tt))
              (Post-if (eqb k (codes "enc_key2"))
                (Post-bind (map_error-Halts (in_field (codes "enc_key2")) (decode_b64-Halts v))
                  (λ b h. value tt))
                (Post-if (eqb k (codes "key1_hash")) (value tt) (
                  Post-if (eqb k (codes "session_key_hash")) (value tt) (
                    Post-if (eqb k (codes "file_md5")) (value tt) (
                      Post-if (eqb k (codes "file_name")) (value tt) (
                        Post-if (eqb k (codes "compress")) (value tt)
                          (Post-if (eqb k (codes "encrypt")) (value tt) (value tt))))))))))))

  absorb_entry-Halts : (k v : Value) (m : Metadata) → Halts (absorb_entry C k v m)
  unfolding absorb_entry
  absorb_entry-Halts (str k) v m = Post-if (eqb k (codes "type")) (value tt) (absorb-Halts k v m)
  absorb_entry-Halts nil v m = value tt
  absorb_entry-Halts (bytes k) v m = value tt
  absorb_entry-Halts (dict k) v m = value tt
  absorb_entry-Halts (int k) v m = value tt

  pub absorb_members-Halts : (ms : Members) (m : Metadata) → Halts (absorb_members C ms m)
  unfolding absorb_members
  absorb_members-Halts no_members m = value tt
  absorb_members-Halts (member k v ms) m =
      Post-bind (absorb_entry-Halts k v m) (λ m' h. absorb_members-Halts ms m')

  pub consume_magic-Halts : (r : Source) → Halts (consume_magic C r)
  unfolding consume_magic
  consume_magic-Halts r =
      let magic = codes file_magic in
      Post-bind (map_error-Halts read_magic (read_full-Halts (length magic) r)) (λ (head, r') h.
        Post-bind (require-Halts (if eqb head magic then none else some bad_magic)) (λ u h.
          Post-bind (map_error-Halts read_magic_checksum (read_full-Halts magic_checksum_len r'))
            (λ (tail, r'') h.
              Post-bind
                (require-Halts (
                  if eqb (hex_encode (C.md5 magic)) tail
                  then none
                  else some magic_checksum_mismatch))
                (λ u h. value tt))))

  unwrap_with_password-Halts :
      (password key1 : List ℕ) (m : Metadata) → Halts (unwrap_with_password C password key1 m)
  unfolding unwrap_with_password
  unwrap_with_password-Halts password key1 m =
      let k = evp_kdf C password m.salt (kdf_rounds m.salt) 32 block_size in
      Post-bind (require-Halts (verify_key_hash C m.key1_hash password (codes "password"))) (λ u h.
        Post-bind (call-Halts (C.new_cipher k.0)) (λ b h.
          Post-bind
            (require-Halts
              (if is_unaligned key1 then some (key1_not_aligned (length key1)) else none))
            (λ u h.
              map_error-Halts key1_padding
                (unpad-Halts (C.crypt_blocks (C.cbc_decrypter b k.1) key1).0))))

  unwrap-Halts :
      (password key1 : Option (List ℕ)) (rsa_key : Option PrivateKey) (key2 : Option (List ℕ))
      (m : Metadata)
      → Halts (unwrap C password key1 rsa_key key2 m)
  unfolding unwrap unwrap_with_rsa
  unwrap-Halts (some password) (some key1) rsa_key key2 m =
      unwrap_with_password-Halts password key1 m
  unwrap-Halts (some password) none (some key) (some key2) m =
      map_error-Halts rsa_failed (call-Halts (C.oaep_decrypt key key2))
  unwrap-Halts (some password) none (some key) none m = failure
  unwrap-Halts (some password) none none key2 m = failure
  unwrap-Halts none key1 (some key) (some key2) m =
      map_error-Halts rsa_failed (call-Halts (C.oaep_decrypt key key2))
  unwrap-Halts none key1 (some key) none m = failure
  unwrap-Halts none key1 none key2 m = failure

  pub recover_session_key-Halts :
      (o : Options PrivateKey) (m : Metadata) → Halts (recover_session_key C o m)
  unfolding recover_session_key
  recover_session_key-Halts o m =
      Post-bind (unwrap-Halts o.password m.enc_key1 o.private_key m.enc_key2 m) (λ sk h.
        Post-bind (require-Halts (verify_key_hash C m.session_key_hash sk (codes "session_key")))
          (λ u h.
            Post-if (ltb 0 (length m.salt)) (map_error-Halts session_not_hex (hex_decode-Post sk))
              (value tt)))

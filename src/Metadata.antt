-- ===== src/Metadata.antt =====
-- csenc/decrypt.go: the metadata that a stream carries, and how its fields are merged. Calls of the
-- logger are left out: they change nothing.
pub mod RoundTrip
use cloudsync_decrypt_go.Common.{ℕ, List, [], ◌&&◌, not}
use cloudsync_decrypt_go.Common.{Option, none, some, eqb, if◌then◌else◌, codes}
use cloudsync_decrypt_go.Common.{in_field, cannot_decode_kind, encrypt_mode, compress_mode}
use cloudsync_decrypt_go.Common.{Result, ok, err, call, map_error, ◌>>=◌}
use cloudsync_decrypt_go.Common.Signed.{ℤ, pos, is_pos, to_int64}
use cloudsync_decrypt_go.Wire.{Value, Members, bytes, str, int, no_members, member, lookup}
use cloudsync_decrypt_go.Crypto.{Crypto}

-- `EncKey1` and `EncKey2` are `none` while nil, which the code tells from empty.
pub record Metadata : Type 0 where
  pub major : ℤ
  pub minor : ℤ
  pub salt : List ℕ
  pub digest : List ℕ
  pub enc_key1 : Option (List ℕ)
  pub enc_key2 : Option (List ℕ)
  pub key1_hash : List ℕ
  pub session_key_hash : List ℕ
  pub plaintext_md5 : List ℕ
  pub filename : List ℕ
  pub compress : ℤ
  pub encrypt : ℤ

abbrev pub new_metadata : Metadata
new_metadata = record {
  major = pos 0;
  minor = pos 0;
  salt = [];
  digest = [];
  enc_key1 = none;
  enc_key2 = none;
  key1_hash = [];
  session_key_hash = [];
  plaintext_md5 = [];
  filename = [];
  compress = pos 1;
  encrypt = pos 1;
}

-- The string, the bytes or the number of a value, where it is of that kind.
abbrev pub str_of : Value → List ℕ → List ℕ
str_of (str s) old = s
str_of _ old = old

abbrev pub int64_of : Value → ℤ → ℤ
int64_of (int n) old = to_int64 n
int64_of _ old = old

-- `if maj, ok := v.Lookup(name); ok && maj.Int != nil`
abbrev pub int64_at : Option Value → ℤ → ℤ
int64_at (some v) old = int64_of v old
int64_at none old = old

-- Streams that were not encrypted, or were packed in an unknown way, are refused.
unfoldable pub check_modes : Metadata → Result (Unit {0})
check_modes m =
    if not (is_pos m.encrypt 1)
    then err encrypt_mode
    else if not (is_pos m.compress 0) && not (is_pos m.compress 1)
    then err compress_mode
    else ok tt

module _ (C : Crypto) where
  open C use {base64_decode}

  unfoldable pub decode_b64 : Value → Result (List ℕ)
  decode_b64 (str s) = call (base64_decode s)
  decode_b64 (bytes b) = call (base64_decode b)
  decode_b64 _ = err cannot_decode_kind

  unfoldable pub absorb_version : Value → Metadata → Metadata
  absorb_version v m = record m {
    major = int64_at (lookup v (codes "major")) m.major;
    minor = int64_at (lookup v (codes "minor")) m.minor;
  }

  -- The fields that hold text, numbers or keys, by name.
  unfoldable pub absorb : List ℕ → Value → Metadata → Result Metadata
  absorb k v m =
      if eqb k (codes "version")
      then ok (absorb_version v m)
      else if eqb k (codes "salt")
      then ok (record m { salt = str_of v m.salt })
      else if eqb k (codes "digest")
      then ok (record m { digest = str_of v m.digest })
      else if eqb k (codes "enc_key1")
      then key1
      else if eqb k (codes "enc_key2")
      then key2
      else if eqb k (codes "key1_hash")
      then ok (record m { key1_hash = str_of v m.key1_hash })
      else if eqb k (codes "session_key_hash")
      then ok (record m { session_key_hash = str_of v m.session_key_hash })
      else if eqb k (codes "file_md5")
      then ok (record m { plaintext_md5 = str_of v m.plaintext_md5 })
      else if eqb k (codes "file_name")
      then ok (record m { filename = str_of v m.filename })
      else if eqb k (codes "compress")
      then ok (record m { compress = int64_of v m.compress })
      else if eqb k (codes "encrypt")
      then ok (record m { encrypt = int64_of v m.encrypt })
      else ok m
    where
      key1 : Result Metadata
      key1 = do
        b ← map_error (in_field (codes "enc_key1")) (decode_b64 v)
        ok (record m { enc_key1 = some b })

      key2 : Result Metadata
      key2 = do
        b ← map_error (in_field (codes "enc_key2")) (decode_b64 v)
        ok (record m { enc_key2 = some b })

  -- One entry of a metadata dict: keys that are no strings, and `type`, are passed over.
  unfoldable pub absorb_entry : Value → Value → Metadata → Result Metadata
  absorb_entry (str k) v m = if eqb k (codes "type") then ok m else absorb k v m
  absorb_entry _ v m = ok m

  -- The loop over the entries, up to the first error; the metadata is as that entry found it.
  unfoldable pub absorb_members : Members → Metadata → Result Metadata
  absorb_members no_members m = ok m
  absorb_members (member k v ms) m = absorb_entry k v m >>= absorb_members ms

-- ===== src/Encoder.antt =====
-- The wire encoder of csenc/encrypt.go: `wireEnc` and the functions that write the magic and the
-- dicts. A method is a function from encoder to encoder; `⨟` is one statement after another.
pub mod Emits
pub mod Dicts
use cloudsync_decrypt_go.Common.{ℕ, zero, suc, ◌+◌, ◌%◌, Bool, true, false, List, [], ◌∷◌, ◌++◌}
use cloudsync_decrypt_go.Common.{
  Option, none, some, ◌==◌, ltb, if◌then◌else◌, length, codes, not, eqb,
}
use cloudsync_decrypt_go.Common.{Error, value_exceeds_u16, negative_integer}
use cloudsync_decrypt_go.Common.Signed.{ℤ, pos, negsuc}
use cloudsync_decrypt_go.Wire.{tag_end, tag_dict, tag_string, tag_bytes, tag_int}
use cloudsync_decrypt_go.Wire.Emit.{put_uint16, put_uint64, skip_zeros}
use cloudsync_decrypt_go.Io.{Out}
use cloudsync_decrypt_go.Hex.{hex_encode}
use Prim.Native.String.{String}

pub record WireEnc (W : Type 0) : Type 0 where
  pub w : W
  pub error : Option Error

-- `FileMagic`
abbrev pub file_magic : String
file_magic = "__CLOUDSYNC_ENC__"

-- `magicChecksumLen`
abbrev pub magic_checksum_len : ℕ
magic_checksum_len = 32

infixr 20 ◌⨟◌
abbrev pub ◌⨟◌ : {S : Type 0} → (S → S) → (S → S) → S → S
◌⨟◌ f g e = g (f e)

abbrev pub when : {S : Type 0} → Bool → (S → S) → S → S
when true f e = f e
when false f e = e

-- The fields of Go's `leadingMetadata`.
pub record LeadingMetadata : Type 0 where
  pub major : ℤ
  pub minor : ℤ
  pub salt : List ℕ
  pub enc_key1 : List ℕ
  pub enc_key2 : List ℕ
  pub key1_hash : List ℕ
  pub sess_key_hash : List ℕ
  pub compress : ℤ
  pub encrypt : ℤ
  pub filename : List ℕ

module _ (O : Out) where
  open O use {W, write}

  -- Nothing is written once an error has stuck.
  unfoldable pub write_all : List ℕ → WireEnc W → WireEnc W
  write_all b e = elim e.error [
    | none ↦ record { w = (write e.w b).0; error = (write e.w b).1 }
    | some x ↦ e
  ]

  -- `if e.err == nil { e.err = x }`
  unfoldable pub fail : Error → WireEnc W → WireEnc W
  fail x e = elim e.error [ none ↦ record e { error = some x } | some y ↦ e ]

  unfoldable pub dict_start : WireEnc W → WireEnc W
  dict_start = write_all (tag_dict ∷ [])

  unfoldable pub dict_end : WireEnc W → WireEnc W
  dict_end = write_all (tag_end ∷ [])

  unfoldable pub write_short_blob : List ℕ → WireEnc W → WireEnc W
  write_short_blob b =
      if ltb 0xFFFF (length b)
      then fail (value_exceeds_u16 (length b))
      else write_all (put_uint16 (length b)) ⨟ write_all b

  unfoldable pub write_int_body : ℤ → WireEnc W → WireEnc W
  write_int_body (negsuc n) = fail negative_integer
  write_int_body (pos n) =
      let digits = skip_zeros 7 (put_uint64 n) in
      if n == 0
      then write_all (1 ∷ 0 ∷ [])
      else write_all (length digits % 256 ∷ []) ⨟ write_all digits

  unfoldable pub key : List ℕ → WireEnc W → WireEnc W
  key s = write_all (tag_string ∷ []) ⨟ write_short_blob s

  unfoldable pub str_pair : List ℕ → List ℕ → WireEnc W → WireEnc W
  str_pair k v = key k ⨟ write_all (tag_string ∷ []) ⨟ write_short_blob v

  unfoldable pub int_pair : List ℕ → ℤ → WireEnc W → WireEnc W
  int_pair k v = key k ⨟ write_all (tag_int ∷ []) ⨟ write_int_body v

  unfoldable pub bytes_value : List ℕ → WireEnc W → WireEnc W
  bytes_value b = write_all (tag_bytes ∷ []) ⨟ write_short_blob b

  -- `e := &wireEnc{w: w}`, some statements, and `return e.err`.
  abbrev pub encode : (WireEnc W → WireEnc W) → W → W × Option Error
  encode body w = let e = body (record { w = w; error = none }) in (e.w, e.error)

  -- The `version` entry of the leading dict.
  unfoldable pub version_pair : ℤ → ℤ → WireEnc W → WireEnc W
  version_pair major minor =
      key (codes "version")
      ⨟ dict_start
      ⨟ int_pair (codes "major") major
      ⨟ int_pair (codes "minor") minor
      ⨟ dict_end

  -- `md5` is `md5.Sum`. The first `Write` that fails ends it.
  unfoldable pub write_magic : (List ℕ → List ℕ) → W → W × Option Error
  write_magic md5 w =
      let m = write w (codes file_magic) in
      elim m.1 [ some x ↦ m | none ↦ write m.0 (hex_encode (md5 (codes file_magic))) ]

  -- `base64` is `base64.StdEncoding.EncodeToString`.
  module _ (base64 : List ℕ → List ℕ) where
    unfoldable pub leading_body : LeadingMetadata → WireEnc W → WireEnc W
    leading_body m =
        dict_start
        ⨟ str_pair (codes "type") (codes "metadata")
        ⨟ version_pair m.major m.minor
        ⨟ when (ltb 0 (length m.salt)) (str_pair (codes "salt") m.salt)
        ⨟ str_pair (codes "digest") (codes "md5")
        ⨟ when (ltb 0 (length m.enc_key1)) (str_pair (codes "enc_key1") (base64 m.enc_key1))
        ⨟ when (not (eqb m.key1_hash [])) (str_pair (codes "key1_hash") m.key1_hash)
        ⨟ when (ltb 0 (length m.enc_key2)) (str_pair (codes "enc_key2") (base64 m.enc_key2))
        ⨟ str_pair (codes "session_key_hash") m.sess_key_hash
        ⨟ int_pair (codes "compress") m.compress
        ⨟ int_pair (codes "encrypt") m.encrypt
        ⨟ when (not (eqb m.filename [])) (str_pair (codes "file_name") m.filename)
        ⨟ dict_end

    unfoldable pub write_leading_metadata : LeadingMetadata → W → W × Option Error
    write_leading_metadata m = encode (leading_body m)

  unfoldable pub data_body : List ℕ → WireEnc W → WireEnc W
  data_body data' =
      dict_start
      ⨟ str_pair (codes "type") (codes "data")
      ⨟ (key (codes "data") ⨟ bytes_value data')
      ⨟ dict_end

  unfoldable pub write_data_dict : List ℕ → W → W × Option Error
  write_data_dict data' = encode (data_body data')

  unfoldable pub final_body : List ℕ → WireEnc W → WireEnc W
  final_body md5hex =
      dict_start
      ⨟ str_pair (codes "type") (codes "metadata")
      ⨟ str_pair (codes "file_md5") md5hex
      ⨟ dict_end

  unfoldable pub write_final_metadata : List ℕ → W → W × Option Error
  write_final_metadata md5hex = encode (final_body md5hex)

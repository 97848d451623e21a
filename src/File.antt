-- ===== src/File.antt =====
-- csenc/file.go and `EncryptFile` (csenc/encrypt.go): the operations on files. A function from the
-- files to the files and a result; an opened source stands for its bytes, as nothing here writes to it.
pub mod Halts
pub mod Magic
pub mod Atomic
pub mod Temp
pub mod RoundTrip
use cloudsync_decrypt_go.Common.{
  ℕ, Bool, true, false, not, ◌&&◌, ◌||◌, ◌==◌, List, [], ◌∷◌, Option, none, some, Error, Result, ok,
  err, out_of_fuel, eof, unexpected_eof, inl, inr, eqb, if◌then◌else◌, codes, length,
}
use cloudsync_decrypt_go.Common.Action.{Action, ◌>>◌, result_of}
use cloudsync_decrypt_go.Wire.{Source, read_full}
use cloudsync_decrypt_go.Crypto.{Crypto}
use cloudsync_decrypt_go.Lz4.{Lz4}
use cloudsync_decrypt_go.Os.{Os, FilePath, file_out, at_once}
use cloudsync_decrypt_go.Metadata.{Metadata}
use cloudsync_decrypt_go.Recover.{Options}
use cloudsync_decrypt_go.Encoder.{file_magic}
use cloudsync_decrypt_go.Session.{EncryptOptions}
use cloudsync_decrypt_go.Writer.{Input, encrypt}
use cloudsync_decrypt_go.Decrypt.{decrypt, current}
use cloudsync_decrypt_go.Decrypt.Inspect.{inspect}

-- `err == io.EOF || err == io.ErrUnexpectedEOF`
abbrev pub is_short : Error → Bool
is_short eof = true
is_short unexpected_eof = true
is_short _ = false

unfoldable pub has_magic : Source → Result Bool
has_magic src = elim (read_full (length (codes file_magic)) src) [
  | ok (head, rest) ↦ ok (eqb head (codes file_magic))
  | err e ↦ if is_short e then ok false else err e
  | out_of_fuel ↦ out_of_fuel
]

module _ (S : Os) where
  open S use {
    Fs, File, name, open_file, slices, mkdir_all, create_temp, close_file, rename, remove, dir,
    base,
  }

  -- An operation that may return an error, behind which nothing else is returned.
  abbrev pub doing : (Fs → Fs × Option Error) → Action Fs (Unit {0})
  doing op fs = let r = op fs in (r.0, result_of r.1)

  unfoldable pub is_csenc_file : Fs → FilePath → Result Bool
  is_csenc_file fs path = elim (open_file fs path) [ inl e ↦ err e | inr src ↦ has_magic src ]

  unfoldable pub inspect_file : Crypto → Fs → FilePath → Result Metadata
  inspect_file C fs path = elim (open_file fs path) [ inl e ↦ err e | inr src ↦ inspect C src ]

  unfoldable pub make_parent : FilePath → Action Fs (Unit {0})
  make_parent out_path fs =
      let d = dir out_path in
      if not (eqb d []) && not (eqb d (codes "."))
      then doing (λ s. mkdir_all s d) fs
      else (fs, ok tt)

  -- Running the body on the temporary file, which is closed if it fails.
  unfoldable pub fill : File → Action Fs (Unit {0}) → Action Fs (Unit {0})
  fill f body fs =
      let r = body fs in
      elim r.1 [
        | ok u ↦ (r.0, ok tt)
        | err e ↦ ((close_file f r.0).0, err e)
        | out_of_fuel ↦ (r.0, out_of_fuel)
      ]

  unfoldable pub fill_and_rename : File → FilePath → Action Fs (Unit {0}) → Action Fs (Unit {0})
  fill_and_rename f out_path body =
      fill f body >> doing (close_file f) >> doing (λ s. rename s (name f) out_path)

  -- The temporary file is removed at the end, whatever came before.
  unfoldable pub with_temp :
      List ℕ → FilePath → (File → Action Fs (Unit {0})) → Action Fs (Unit {0})
  with_temp pattern out_path body fs =
      let made = create_temp fs (dir out_path) pattern in
      elim made.1 [
        | inl e ↦ (made.0, err e)
        | inr f ↦
            let r = fill_and_rename f out_path (body f) made.0 in ((remove r.0 (name f)).0, r.1)
      ]

  module _ (C : Crypto) (L : Lz4) where
    open C use {PrivateKey, PublicKey}

    unfoldable pub decrypt_to : Source → Options PrivateKey → File → Action Fs (Unit {0})
    decrypt_to src o f fs =
        let r = decrypt (file_out S f fs) C L src (at_once S f fs) o in
        ((current (file_out S f fs) C L r.0).out.now, r.1)

    unfoldable pub decrypt_file : FilePath → FilePath → Options PrivateKey → Action Fs (Unit {0})
    decrypt_file in_path out_path o fs = elim (open_file fs in_path) [
      | inl e ↦ (fs, err e)
      | inr src ↦
          (make_parent out_path >> with_temp (codes ".csenc-*") out_path (decrypt_to src o)) fs
    ]

    -- The name that the stream records is the base name of the source, unless one was given.
    unfoldable pub default_name : FilePath → EncryptOptions PublicKey → EncryptOptions PublicKey
    default_name in_path o = if eqb o.filename [] then record o { filename = base in_path } else o

    module _ (crand : Source) where
      unfoldable pub encrypt_to : Source → EncryptOptions PublicKey → File → Action Fs (Unit {0})
      encrypt_to src o f fs =
          let inp : Input = record { reads = slices src.bytes; fin = src.fin } in
          let r = encrypt (file_out S f fs) C L crand inp (at_once S f fs) o in (r.0.now, r.1)

      unfoldable pub encrypt_file :
          FilePath → FilePath → EncryptOptions PublicKey → Action Fs (Unit {0})
      encrypt_file in_path out_path o fs = elim (open_file fs in_path) [
        | inl e ↦ (fs, err e)
        | inr src ↦
            (make_parent out_path
                >> with_temp (codes ".csenc-enc-*") out_path
                    (encrypt_to src (default_name in_path o)))
              fs
      ]

-- ===== src/File/Magic.antt =====
-- csenc/file.go: what `IsCsencFile` answers.
use cloudsync_decrypt_go.Common.{
  leb-false, ℕ, ◌≡◌, ◌≢◌, ◌<◌, refl, ap, ◌∙◌, inl, inr, true, false, Bool-cases, List, [], ◌∷◌,
  ◌++◌, take, length, length-take, take_seam, codes, eof, ok, leb, eqb, eqb_refl, eqb→eq, arith,
  some, append_assoc, concat,
}
use cloudsync_decrypt_go.Wire.{read_full, short_read}
use cloudsync_decrypt_go.Wire.RoundTrip.{source}
use cloudsync_decrypt_go.Crypto.{Crypto}
use cloudsync_decrypt_go.Lz4.{Lz4}
use cloudsync_decrypt_go.Os.{Os, FilePath, file_out, at_once}
use cloudsync_decrypt_go.Encoder.{file_magic}
use cloudsync_decrypt_go.Wire.{Source}
use cloudsync_decrypt_go.Session.{EncryptOptions}
use cloudsync_decrypt_go.Wire.Emit.{emit}
use cloudsync_decrypt_go.Hex.{hex_encode}
use cloudsync_decrypt_go.Encoder.Dicts.{leading_value, final_value}
use cloudsync_decrypt_go.Pipeline.Sink.{data_bytes}
use cloudsync_decrypt_go.Writer.Start.{magic_bytes}
use cloudsync_decrypt_go.Writer.{Input, handed, leading_metadata, encrypt}
use cloudsync_decrypt_go.Writer.Encrypt.{HasMinor, encrypt-Stream}
use cloudsync_decrypt_go.File.Temp.{IsReadable}
use cloudsync_decrypt_go.File.RoundTrip.{encrypt_file-Encrypted, default_name_cases}
use cloudsync_decrypt_go.File.{encrypt_file, default_name, is_csenc_file, has_magic, is_short}

-- A header that is too short is not the magic.
short_eqb : (n : ℕ) (c m : List ℕ) → length c < n → length m ≡ n → eqb (take n c) m ≡ false
short_eqb n c m short full = elim (Bool-cases (eqb (take n c) m)) [
  | inr e ↦ e
  | inl e ↦
      let same = ap length (eqb→eq (take n c) m e) in
      let cut = length-take n c in absurd (omega arith)
]

short_source : (c : List ℕ) → is_short (short_read (source c eof)) ≡ true
short_source [] = refl
short_source (x ∷ c) = ground arith

has_magic_lem :
    (c : List ℕ)
    → has_magic (source c eof) ≡ ok (eqb (take (length (codes file_magic)) c) (codes file_magic))
unfolding has_magic read_full
has_magic_lem c = elim (Bool-cases (leb (length (codes file_magic)) (length c))) [
  | inl e ↦ rw (has_magic, read_full, e)
  | inr e ↦ rw (
    has_magic,
    read_full,
    e,
    short_source c,
    short_eqb (length (codes file_magic)) c (codes file_magic) (leb-false _ _ e) refl,
  )
]

module _ (S : Os) where
  open S use {Fs, File, name, content, open_file, stored}

  -- `IsCsencFile` of a file that opens and reads to its end answers, without an error, whether the
  -- content starts with the magic; a content that is shorter does not.
  pub is_csenc_file_lem :
      (fs : Fs) (p : FilePath) (c : List ℕ)
      → open_file fs p ≡ inr (source c eof)
      → is_csenc_file S fs p ≡ ok (eqb (take (length (codes file_magic)) c) (codes file_magic))
  unfolding is_csenc_file
  is_csenc_file_lem fs p c opened = rw (is_csenc_file, opened) (has_magic_lem c)

  module _ (C : Crypto) (L : Lz4) (crand : Source) where
    open C use {PublicKey}

    -- Once `EncryptFile` has succeeded on a file that can be read, `IsCsencFile` recognises its target,
    -- if that can be read too, no temporary file is named like it, and the minor version of the options
    -- is an int64 value that is not negative.
    pub is_csenc_file-encrypt_file :
        (in_path out_path : FilePath) (o : EncryptOptions PublicKey) (fs : Fs) (c : List ℕ)
        → HasMinor o
        → ((f : File) → out_path ≢ name f)
        → IsReadable S fs in_path
        → content fs in_path ≡ some c
        → (encrypt_file S C L crand in_path out_path o fs).1 ≡ ok tt
        → IsReadable S (encrypt_file S C L crand in_path out_path o fs).0 out_path
        → is_csenc_file S (encrypt_file S C L crand in_path out_path o fs).0 out_path ≡ ok true
    is_csenc_file-encrypt_file in_path out_path o fs c m apart readable there h again =
        let o' = default_name S C L in_path o in
        let e = encrypt_file-Encrypted S C L crand in_path out_path o fs c apart readable there h in
        let W₂ = file_out S e.temp e.from in
        let inp : Input = record { reads = S.slices c; fin = eof } in
        let m' =
          default_name_cases S C L crand HasMinor in_path o m
            (record { number = m.number; minor_is = m.minor_is; in_range = m.in_range }) in
        let s = encrypt-Stream W₂ C L crand inp (at_once S e.temp e.from) o' m' e.accepted in
        let md5 = hex_encode (C.md5 (codes file_magic)) in
        let lead = emit (leading_value C.base64_encode (leading_metadata W₂ C L o' s.keys)) in
        let tail =
          data_bytes s.chunks
          ++ emit (final_value (hex_encode (C.md5 (concat (handed inp.reads))))) in
        let whole = stored e.temp (encrypt W₂ C L crand inp (at_once S e.temp e.from) o').0.now in
        let starts : whole ≡ codes file_magic ++ (md5 ++ (lead ++ tail)) =
          s.wrote
          ∙ ap (λ (b : List ℕ). (b ++ (magic_bytes C.md5 ++ lead)) ++ tail) e.fresh
          ∙ append_assoc (magic_bytes C.md5) lead tail
          ∙ append_assoc (codes file_magic) md5 (lead ++ tail) in
        is_csenc_file_lem (encrypt_file S C L crand in_path out_path o fs).0 out_path whole
          (again whole e.holds)
        ∙ ap (λ (b : List ℕ). ok (eqb (take (length (codes file_magic)) b) (codes file_magic)))
            starts
        ∙ rw (
          take_seam (length (codes file_magic)) (codes file_magic) (md5 ++ (lead ++ tail)) refl,
          eqb_refl (codes file_magic),
        )

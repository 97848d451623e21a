-- ===== src/File/RoundTrip.antt =====
-- csenc/file.go against `EncryptFile` (csenc/encrypt.go): a file that is encrypted and decrypted again.
use cloudsync_decrypt_go.Common.{
  Fallible, ℕ, ◌≡◌, ◌≢◌, ◌<◌, refl, sym, ap, ◌∙◌, inl, inr, false, Bool-cases, List, [], eqb, codes,
  Option, none, some, eof, Result, ok, All, length, concat, ◌++◌,
}
use cloudsync_decrypt_go.Common.Action.{seq_run, seq_ok}
use mathlib.Core.Path.{subst}
use cloudsync_decrypt_go.Hex.{IsByte}
use cloudsync_decrypt_go.Wire.{Source}
use cloudsync_decrypt_go.Wire.RoundTrip.{source}
use cloudsync_decrypt_go.Crypto.{Crypto}
use cloudsync_decrypt_go.Lz4.{Lz4}
use cloudsync_decrypt_go.Os.{Reached, Os, FilePath, file_out, at_once}
use cloudsync_decrypt_go.Recover.{Options}
use cloudsync_decrypt_go.Session.{EncryptOptions, compress_on, rand}
use cloudsync_decrypt_go.Writer.{Input, encrypt}
use cloudsync_decrypt_go.Writer.Encrypt.{HasMinor}
use cloudsync_decrypt_go.Decrypt.{decrypt, current}
use cloudsync_decrypt_go.Decrypt.OfEncrypt.{decrypt-encrypt}
use cloudsync_decrypt_go.File.{
  make_parent, with_temp, decrypt_to, decrypt_file, default_name, encrypt_to, encrypt_file,
}
use cloudsync_decrypt_go.File.Temp.{IsReadable, Works, make_parent_ok, with_temp_runs, with_temp-ok}

inr_injective : {A : Type 0} {a b : A} → ◌≡◌ {A = Fallible A} (inr a) (inr b) → a ≡ b
inr_injective e = cc

module _ (S : Os) where
  open S use {Fs, File, name, content, stored, create_temp, dir}

  module _ (C : Crypto) (L : Lz4) (crand : Source) where
    open C use {PrivateKey, PublicKey}

    -- What a source is encrypted to when `EncryptFile` succeeds: the target has the whole output of
    -- `Encrypt` on an empty file.
    pub record Encrypted (c : List ℕ) (o : EncryptOptions PublicKey) (after : Fs)
        (out_path : FilePath) : Type 1 where
      pub temp : File
      pub from : Fs
      pub fresh : stored temp from ≡ []
      pub accepted :
          (encrypt
            (file_out S temp from)
            C
            L
            crand
            (record { reads = S.slices c; fin = eof })
            (at_once S temp from)
            o).1
          ≡ ok tt
      pub holds :
          content after out_path
          ≡ some (
              stored temp
                (encrypt
                  (file_out S temp from)
                  C
                  L
                  crand
                  (record { reads = S.slices c; fin = eof })
                  (at_once S temp from)
                  o).0.now)

    pub encrypt_file-Encrypted :
        (in_path out_path : FilePath) (o : EncryptOptions PublicKey) (fs : Fs) (c : List ℕ)
        → ((f : File) → out_path ≢ name f)
        → IsReadable S fs in_path
        → content fs in_path ≡ some c
        → (encrypt_file S C L crand in_path out_path o fs).1 ≡ ok tt
        → Encrypted c
            (default_name S C L in_path o)
            (encrypt_file S C L crand in_path out_path o fs).0
            out_path
    unfolding encrypt_file encrypt_to
    encrypt_file-Encrypted in_path out_path o fs c apart readable there h =
        let opened = readable c there in
        let o' = default_name S C L in_path o in
        let body = encrypt_to S C L crand (source c eof) o' in
        let pattern = codes ".csenc-enc-*" in
        let parent =
          (seq_ok (make_parent S out_path) (with_temp S pattern out_path body) fs
            (rw (encrypt_file, opened) at h)).0 in
        let fs₁ = (make_parent S out_path fs).0 in
        let run : encrypt_file S C L crand in_path out_path o fs
            ≡ with_temp S pattern out_path body fs₁ =
          rw (opened, encrypt_file)
            (seq_run (make_parent S out_path) (with_temp S pattern out_path body) fs parent) in
        let t =
          with_temp-ok S pattern out_path body fs₁ apart
            (ap (λ (r : Fs × Result (Unit {0})). r.1) (sym run) ∙ h) in
        let from = (create_temp fs₁ (dir out_path) pattern).0 in
        let (_, empty, none_stored) = S.create_temp-new fs₁ (dir out_path) pattern t.temp t.made in
        record {
          temp = t.temp;
          from = from;
          fresh = none_stored;
          accepted = t.ran;
          holds =
              ap (λ (r : Fs × Result (Unit {0})). content r.0 out_path) run
              ∙ t.moved
              ∙ (encrypt (file_out S t.temp from) C L crand
                    (record { reads = S.slices c; fin = eof }) (at_once S t.temp from) o').0.linked
                  (empty ∙ ap some (sym none_stored));
        }

    pub default_name_cases :
        (P : EncryptOptions PublicKey → Type 0) (in_path : FilePath) (o : EncryptOptions PublicKey)
        → P o
        → P (record o { filename = S.base in_path })
        → P (default_name S C L in_path o)
    unfolding default_name
    default_name_cases P in_path o h k = elim (Bool-cases (eqb o.filename [])) [
      | inl e ↦ rw e k
      | inr e ↦ rw e h
    ]

    -- What `decrypt-encrypt` asks of the options; the name of the file has no part in it.
    abbrev Plain : EncryptOptions PublicKey → EncryptOptions PublicKey → Type 0
    Plain o o' =
        HasMinor o'
        × (compress_on o' ≡ false)
        × (0 < length o'.password)
        × All IsByte (rand crand o').bytes
        × (o'.password ≡ o.password)

    default_name-Plain :
        (in_path : FilePath) (o : EncryptOptions PublicKey)
        → HasMinor o
        → compress_on o ≡ false
        → 0 < length o.password
        → All IsByte (rand crand o).bytes
        → Plain o (default_name S C L in_path o)
    unfolding compress_on rand
    default_name-Plain in_path o m plain_mode has_password random_bytes =
        default_name_cases (Plain o) in_path o (m, plain_mode, has_password, random_bytes, refl)
          (
            record { number = m.number; minor_is = m.minor_is; in_range = m.in_range },
            plain_mode,
            has_password,
            random_bytes,
            refl,
          )

    decrypted :
        (in_path : FilePath) (o : EncryptOptions PublicKey) (c : List ℕ) (after : Fs)
        (enc_path : FilePath) (rsa_key : Option PrivateKey)
        → Plain o (default_name S C L in_path o)
        → (e : Encrypted c (default_name S C L in_path o) after enc_path) → (f : File) (fs : Fs)
        → stored f fs ≡ []
        → ((w : Reached S f fs) (b : List ℕ) → (S.write f w.now b).1 ≡ none)
        → let r =
            decrypt_to S C L
              (source
                (stored e.temp
                  (encrypt
                    (file_out S e.temp e.from)
                    C
                    L
                    crand
                    (record { reads = S.slices c; fin = eof })
                    (at_once S e.temp e.from)
                    (default_name S C L in_path o)).0.now)
                eof)
              (record { password = some o.password; private_key = rsa_key })
              f
              fs in
          (r.1 ≡ ok tt) × (stored f r.0 ≡ c)
    unfolding decrypt_to
    decrypted in_path o c after enc_path rsa_key (m, plain_mode, has_password, random_bytes, pw) e f
          fs empty writes =
        let o' = default_name S C L in_path o in
        let W₂ = file_out S e.temp e.from in
        let inp : Input = record { reads = S.slices c; fin = eof } in
        let (s, prepared, restored) =
          decrypt-encrypt W₂ (file_out S f fs) C L crand o' writes inp (at_once S e.temp e.from)
            (at_once S f fs) rsa_key m plain_mode has_password random_bytes e.fresh e.accepted in
        subst
          (λ (p : List ℕ).
            let r =
              decrypt (file_out S f fs) C L
                (source (W₂.written (encrypt W₂ C L crand inp (at_once S e.temp e.from) o').0) eof)
                (at_once S f fs) (record { password = some p; private_key = rsa_key }) in
            (r.1 ≡ ok tt) × (stored f (current (file_out S f fs) C L r.0).out.now ≡ c))
          pw
          (
            restored.succeeds,
            restored.wrote
                ∙ ap (λ (b : List ℕ). b ++ concat (S.slices c)) empty
                ∙ S.concat-slices c,
          )

    -- For options with a password and no compression, a minor version that is an int64 value and not
    -- negative, a random source of bytes, and targets that no temporary file is named like: if
    -- `EncryptFile` succeeds on a file that can be read, its target can be read too, and writing the
    -- second target does not fail (its directory can be made, its temporary file be created, written,
    -- closed and renamed), then `DecryptFile` of the first target, under the same password, succeeds,
    -- and the second target has exactly the content of the first file.
    pub decrypt_file-encrypt_file :
        (in_path enc_path out_path : FilePath) (o : EncryptOptions PublicKey)
        (rsa_key : Option PrivateKey) (fs : Fs) (c : List ℕ)
        → HasMinor o
        → compress_on o ≡ false
        → 0 < length o.password
        → All IsByte (rand crand o).bytes
        → ((f : File) → (enc_path ≢ name f) × (out_path ≢ name f))
        → content fs in_path ≡ some c
        → IsReadable S fs in_path
        → (encrypt_file S C L crand in_path enc_path o fs).1 ≡ ok tt
        → IsReadable S (encrypt_file S C L crand in_path enc_path o fs).0 enc_path
        → Works S (codes ".csenc-*") out_path (encrypt_file S C L crand in_path enc_path o fs).0
        → let r =
            decrypt_file S C L enc_path out_path
              (record { password = some o.password; private_key = rsa_key })
              (encrypt_file S C L crand in_path enc_path o fs).0 in
          (r.1 ≡ ok tt) × (content r.0 out_path ≡ some c)
    unfolding decrypt_file decrypt_to
    decrypt_file-encrypt_file in_path enc_path out_path o rsa_key fs c m plain_mode has_password
          random_bytes apart there readable h again works =
        let e =
          encrypt_file-Encrypted in_path enc_path o fs c (λ f. (apart f).0) readable there h in
        let after = (encrypt_file S C L crand in_path enc_path o fs).0 in
        let asked : Options PrivateKey = record {
          password = some o.password;
          private_key = rsa_key;
        } in
        let stored_at =
          stored e.temp
            (encrypt (file_out S e.temp e.from) C L crand (record { reads = S.slices c; fin = eof })
              (at_once S e.temp e.from) (default_name S C L in_path o)).0.now in
        let body = decrypt_to S C L (source stored_at eof) asked in
        let fs₁ = (make_parent S out_path after).0 in
        let pattern = codes ".csenc-*" in
        let run : decrypt_file S C L enc_path out_path asked after
            ≡ with_temp S pattern out_path body fs₁ =
          rw (again stored_at e.holds, decrypt_file)
            (seq_run (make_parent S out_path) (with_temp S pattern out_path body) after
              (make_parent_ok S out_path after works.parent)) in
        let from = (create_temp fs₁ (dir out_path) pattern).0 in
        let (_, empty, none_stored) =
          S.create_temp-new fs₁ (dir out_path) pattern works.temp works.made in
        let right =
          decrypted in_path o c after enc_path rsa_key
            (default_name-Plain in_path o m plain_mode has_password random_bytes) e works.temp from
            none_stored works.writes in
        let left =
          (current (file_out S works.temp from) C L
            (decrypt (file_out S works.temp from) C L (source stored_at eof)
              (at_once S works.temp from) asked).0).out in
        let runs =
          with_temp_runs S pattern out_path body fs₁ works.temp works.made right.0
            (works.closes left) (works.renames left) in
        let t = with_temp-ok S pattern out_path body fs₁ (λ f. (apart f).1) runs in
        let same : t.temp ≡ works.temp = inr_injective (sym t.made ∙ works.made) in
        (
          ap (λ (r : Fs × Result (Unit {0})). r.1) run ∙ runs,
          ap (λ (r : Fs × Result (Unit {0})). content r.0 out_path) run
              ∙ t.moved
              ∙ ap (λ (f : File). content (body f from).0 (name f)) same
              ∙ left.linked (empty ∙ ap some (sym none_stored))
              ∙ ap some right.1,
        )

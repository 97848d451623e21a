-- ===== src/File/Atomic.antt =====
-- csenc/file.go and `EncryptFile` (csenc/encrypt.go): which files an operation can change.
use cloudsync_decrypt_go.Common.{
  ℕ, ◌≡◌, ◌≢◌, refl, sym, ap, ◌∙◌, ◌⊎◌, inl, inr, Bool-cases, Option-cases, List, [], not, ◌&&◌,
  eqb, codes, none, some, Fallible-cases, Result, ok, err, out_of_fuel,
}
use cloudsync_decrypt_go.Common.Action.{Action, ◌>>=◌, ◌>>◌}
use cloudsync_decrypt_go.Wire.{Source}
use cloudsync_decrypt_go.Crypto.{Crypto}
use cloudsync_decrypt_go.Lz4.{Lz4}
use cloudsync_decrypt_go.Os.{Os, FilePath, file_out, at_once}
use cloudsync_decrypt_go.Recover.{Options}
use cloudsync_decrypt_go.Session.{EncryptOptions}
use cloudsync_decrypt_go.Writer.{encrypt}
use cloudsync_decrypt_go.Decrypt.{decrypt, current}
use cloudsync_decrypt_go.File.{
  doing, make_parent, fill, fill_and_rename, with_temp, decrypt_to, decrypt_file, default_name,
  encrypt_to, encrypt_file,
}

value_apart {ℓ} : {A : Type ℓ} {a : A} → some a ≢ none
value_apart e = cc

module _ (S : Os) where
  open S use {Fs, File, name, content, open_file, create_temp, close_file, rename, remove, dir}

  -- The action leaves the path as it is, whatever it returns; or if it does not succeed.
  abbrev pub Keeps : FilePath → Action Fs (Unit {0}) → Type 0
  Keeps p a = (fs : Fs) → content (a fs).0 p ≡ content fs p

  abbrev pub KeepsOnFailure : FilePath → Action Fs (Unit {0}) → Type 0
  KeepsOnFailure p a = (fs : Fs) → (a fs).1 ≢ ok tt → content (a fs).0 p ≡ content fs p

  pub seq-Keeps :
      {p : FilePath} (a b : Action Fs (Unit {0})) → Keeps p a → Keeps p b → Keeps p (a >> b)
  seq-Keeps {p} a b ha hb fs = go (a fs).1 refl
    where
      go : (r : Result (Unit {0})) → (a fs).1 ≡ r → content ((a >> b) fs).0 p ≡ content fs p
      go (ok u) e = rw (e, ◌>>=◌, ◌>>◌) (hb (a fs).0 ∙ ha fs)
      go (err x) e = rw (e, ◌>>=◌, ◌>>◌) (ha fs)
      go out_of_fuel e = rw (e, ◌>>=◌, ◌>>◌) (ha fs)

  seq-KeepsOnFailure :
      {p : FilePath} (a b : Action Fs (Unit {0}))
      → Keeps p a
      → KeepsOnFailure p b
      → KeepsOnFailure p (a >> b)
  seq-KeepsOnFailure {p} a b ha hb fs = go (a fs).1 refl
    where
      go :
          (r : Result (Unit {0}))
          → (a fs).1 ≡ r
          → ((a >> b) fs).1 ≢ ok tt
          → content ((a >> b) fs).0 p ≡ content fs p
      go (ok u) e h = rw (e, ◌>>=◌, ◌>>◌) (hb (a fs).0 (rw (e, ◌>>=◌, ◌>>◌) at h) ∙ ha fs)
      go (err x) e h = rw (e, ◌>>=◌, ◌>>◌) (ha fs)
      go out_of_fuel e h = rw (e, ◌>>=◌, ◌>>◌) (ha fs)

  make_parent-Keeps : {p : FilePath} (out_path : FilePath) → Keeps p (make_parent S out_path)
  unfolding make_parent
  make_parent-Keeps {p} out_path fs =
      let d = dir out_path in
      elim (Bool-cases (not (eqb d []) && not (eqb d (codes ".")))) [
        | inl e ↦ rw e (S.mkdir_all-content fs d p)
        | inr e ↦ rw e
      ]

  fill-Keeps :
      {p : FilePath} (f : File) (body : Action Fs (Unit {0}))
      → Keeps p body
      → Keeps p (fill S f body)
  unfolding fill
  fill-Keeps {p} f body h fs = go (body fs).1 refl
    where
      go : (r : Result (Unit {0})) → (body fs).1 ≡ r → content (fill S f body fs).0 p ≡ content fs p
      go (ok u) e = rw (e, fill) (h fs)
      go (err x) e = rw (e, fill) (S.close_file-content f (body fs).0 p ∙ h fs)
      go out_of_fuel e = rw (e, fill) (h fs)

  rename-KeepsOnFailure :
      {p : FilePath} (a b : FilePath) → KeepsOnFailure p (doing S (λ s. rename s a b))
  rename-KeepsOnFailure {p} a b fs h = elim (Option-cases (rename fs a b).1) [
    | inl e ↦ absurd (h (rw e))
    | inr (x, e) ↦ S.rename_failed fs a b p x e
  ]

  filled-Keeps :
      {p : FilePath} (f : File) (out_path : FilePath) (body : Action Fs (Unit {0}))
      → p ≢ name f
      → p ≢ out_path
      → Keeps p body
      → Keeps p (fill_and_rename S f out_path body)
  unfolding fill_and_rename
  filled-Keeps {p} f out_path body n o h =
      seq-Keeps (fill S f body >> doing S (close_file f))
        (doing S (λ s. rename s (name f) out_path))
        (seq-Keeps (fill S f body) (doing S (close_file f)) (fill-Keeps f body h)
          (λ s. S.close_file-content f s p))
        (λ s. S.rename_others s (name f) out_path p n o)

  filled-KeepsOnFailure :
      {p : FilePath} (f : File) (out_path : FilePath) (body : Action Fs (Unit {0}))
      → Keeps p body
      → KeepsOnFailure p (fill_and_rename S f out_path body)
  unfolding fill_and_rename
  filled-KeepsOnFailure {p} f out_path body h =
      seq-KeepsOnFailure (fill S f body >> doing S (close_file f))
        (doing S (λ s. rename s (name f) out_path))
        (seq-Keeps (fill S f body) (doing S (close_file f)) (fill-Keeps f body h)
          (λ s. S.close_file-content f s p))
        (rename-KeepsOnFailure (name f) out_path)

  -- A file that is there keeps its content if it is not the target, or if the action fails.
  with_temp-content :
      (pattern : List ℕ) (out_path p : FilePath) (body : File → Action Fs (Unit {0})) (fs : Fs)
      (c : List ℕ)
      → ((f : File) → p ≢ name f → Keeps p (body f))
      → content fs p ≡ some c
      → (p ≢ out_path) ⊎ ((with_temp S pattern out_path body fs).1 ≢ ok tt)
      → content (with_temp S pattern out_path body fs).0 p ≡ some c
  unfolding with_temp
  with_temp-content pattern out_path p body fs c h there which =
      elim (Fallible-cases (create_temp fs (dir out_path) pattern).1) [
        | inl (e, made) ↦
            rw (made, with_temp) (S.create_temp-content fs (dir out_path) pattern p fresh ∙ there)
        | inr (f, made) ↦ rw (made, with_temp) (new f made (rw (made, with_temp) at which))
      ]
    where
      fresh : (f : File) → (create_temp fs (dir out_path) pattern).1 ≡ inr f → p ≢ name f
      fresh f made e =
          value_apart
            (sym there ∙ ap (content fs) e ∙ (S.create_temp-new fs (dir out_path) pattern f made).0)

      new :
          (f : File)
          → (create_temp fs (dir out_path) pattern).1 ≡ inr f
          → (p ≢ out_path)
            ⊎ ((fill_and_rename S f out_path (body f) (create_temp fs (dir out_path) pattern).0).1
                ≢ ok tt)
          → content
              (remove
                (fill_and_rename S f out_path (body f) (create_temp fs (dir out_path) pattern).0).0
                (name f)).0
              p
            ≡ some c
      new f made which =
          let apart = fresh f made in
          let kept = h f apart in
          S.remove_others _ (name f) p apart
          ∙ elim which [
            | inl o ↦ filled-Keeps f out_path (body f) apart o kept _
            | inr bad ↦ filled-KeepsOnFailure f out_path (body f) kept _ bad
          ]
          ∙ S.create_temp-content fs (dir out_path) pattern p fresh
          ∙ there

  -- What both operations on files do once the source is open.
  behind_parent :
      (pattern : List ℕ) (out_path p : FilePath) (body : File → Action Fs (Unit {0})) (fs : Fs)
      (c : List ℕ)
      → ((f : File) → p ≢ name f → Keeps p (body f))
      → content fs p ≡ some c
      → (p ≢ out_path)
        ⊎ (((make_parent S out_path >> with_temp S pattern out_path body) fs).1 ≢ ok tt)
      → content ((make_parent S out_path >> with_temp S pattern out_path body) fs).0 p ≡ some c
  behind_parent pattern out_path p body fs c h there which = go (make_parent S out_path fs).1 refl
    where
      kept : content (make_parent S out_path fs).0 p ≡ some c
      kept = make_parent-Keeps {p = p} out_path fs ∙ there

      go :
          (r : Result (Unit {0}))
          → (make_parent S out_path fs).1 ≡ r
          → content ((make_parent S out_path >> with_temp S pattern out_path body) fs).0 p ≡ some c
      go (ok u) e =
          rw (e, ◌>>=◌, ◌>>◌)
            (with_temp-content pattern out_path p body (make_parent S out_path fs).0 c h kept
              (rw (e, ◌>>=◌, ◌>>◌) at which))
      go (err x) e = rw (e, ◌>>=◌, ◌>>◌) kept
      go out_of_fuel e = rw (e, ◌>>=◌, ◌>>◌) kept

  module _ (C : Crypto) (L : Lz4) where
    open C use {PrivateKey, PublicKey}

    decrypt_to-Keeps :
        (src : Source) (o : Options PrivateKey) (p : FilePath) (f : File)
        → p ≢ name f
        → Keeps p (decrypt_to S C L src o f)
    unfolding decrypt_to
    decrypt_to-Keeps src o p f apart fs =
        (current (file_out S f fs) C L
            (decrypt (file_out S f fs) C L src (at_once S f fs) o).0).out.others
          p apart

    -- `DecryptFile` keeps the content of every file that was there before and is not the target; where
    -- it does not succeed it keeps the target's content too, if the target was there.
    pub decrypt_file-content :
        (in_path out_path p : FilePath) (o : Options PrivateKey) (fs : Fs) (c : List ℕ)
        → content fs p ≡ some c
        → (p ≢ out_path) ⊎ ((decrypt_file S C L in_path out_path o fs).1 ≢ ok tt)
        → content (decrypt_file S C L in_path out_path o fs).0 p ≡ some c
    decrypt_file-content in_path out_path p o fs c there which =
        elim (Fallible-cases (open_file fs in_path)) [
          | inl (e, opened) ↦ unfold decrypt_file in rw (opened, decrypt_file) there
          | inr (src, opened) ↦
              unfold decrypt_file in
              rw (opened, decrypt_file)
                (behind_parent (codes ".csenc-*") out_path p (decrypt_to S C L src o) fs c
                  (decrypt_to-Keeps src o p) there (rw (opened, decrypt_file) at which))
        ]

    module _ (crand : Source) where
      encrypt_to-Keeps :
          (src : Source) (o : EncryptOptions PublicKey) (p : FilePath) (f : File)
          → p ≢ name f
          → Keeps p (encrypt_to S C L crand src o f)
      unfolding encrypt_to
      encrypt_to-Keeps src o p f apart fs =
          (encrypt (file_out S f fs) C L crand
              (record { reads = S.slices src.bytes; fin = src.fin }) (at_once S f fs) o).0.others
            p apart

      -- `EncryptFile` keeps the content of every file that was there before and is not the target; where
      -- it does not succeed it keeps the target's content too, if the target was there.
      pub encrypt_file-content :
          (in_path out_path p : FilePath) (o : EncryptOptions PublicKey) (fs : Fs) (c : List ℕ)
          → content fs p ≡ some c
          → (p ≢ out_path) ⊎ ((encrypt_file S C L crand in_path out_path o fs).1 ≢ ok tt)
          → content (encrypt_file S C L crand in_path out_path o fs).0 p ≡ some c
      encrypt_file-content in_path out_path p o fs c there which =
          elim (Fallible-cases (open_file fs in_path)) [
            | inl (e, opened) ↦ unfold encrypt_file in rw (opened, encrypt_file) there
            | inr (src, opened) ↦
                unfold encrypt_file in
                rw (opened, encrypt_file)
                  (behind_parent (codes ".csenc-enc-*") out_path p
                    (encrypt_to S C L crand src (default_name S C L in_path o)) fs c
                    (encrypt_to-Keeps src (default_name S C L in_path o) p) there
                    (rw (opened, encrypt_file) at which))
          ]

-- ===== src/File/Halts.antt =====
-- csenc/file.go: the termination of `DecryptFile`.
use cloudsync_decrypt_go.Common.{
  ℕ, ◌≡◌, refl, inl, inr, not, ◌&&◌, Bool-cases, List, [], eqb, codes, Fallible-cases, Result, ok,
  err, out_of_fuel, value, failure, Post-ne,
}
use cloudsync_decrypt_go.Common.Action.{Action, ◌>>◌}
use cloudsync_decrypt_go.Crypto.{Crypto}
use cloudsync_decrypt_go.Lz4.{Lz4}
use cloudsync_decrypt_go.Os.{Os, FilePath, file_out, at_once}
use cloudsync_decrypt_go.Recover.{Options}
use cloudsync_decrypt_go.Decrypt.Halts.{Halts}
use cloudsync_decrypt_go.Decrypt.Total.{seq-Halts, result_of-Halts, decrypt-Halts}
use cloudsync_decrypt_go.File.{
  doing, make_parent, fill, fill_and_rename, with_temp, decrypt_to, decrypt_file,
}

module _ (S : Os) where
  open S use {Fs, File, name, create_temp, close_file, rename, dir}

  make_parent-Halts : (out_path : FilePath) (fs : Fs) → Halts (make_parent S out_path fs).1
  unfolding make_parent
  make_parent-Halts out_path fs =
      let d = dir out_path in
      elim (Bool-cases (not (eqb d []) && not (eqb d (codes ".")))) [
        | inl e ↦ rw (make_parent, e) (result_of-Halts (S.mkdir_all fs d).1)
        | inr e ↦ rw (make_parent, e) (value tt)
      ]

  fill-Halts :
      (f : File) (body : Action Fs (Unit {0})) (fs : Fs)
      → Halts (body fs).1
      → Halts (fill S f body fs).1
  unfolding fill
  fill-Halts f body fs h = go (body fs).1 refl
    where
      go : (r : Result (Unit {0})) → (body fs).1 ≡ r → Halts (fill S f body fs).1
      go (ok u) e = rw (fill, e) (value tt)
      go (err x) e = rw (fill, e) failure
      go out_of_fuel e = absurd (Post-ne h e)

  with_temp-Halts :
      (pattern : List ℕ) (out_path : FilePath) (body : File → Action Fs (Unit {0})) (fs : Fs)
      → ((f : File) (t : Fs) → Halts (body f t).1)
      → Halts (with_temp S pattern out_path body fs).1
  unfolding with_temp fill_and_rename
  with_temp-Halts pattern out_path body fs h =
      elim (Fallible-cases (create_temp fs (dir out_path) pattern).1) [
        | inl (e, made) ↦ rw (with_temp, made) failure
        | inr (f, made) ↦
            rw (with_temp, made)
              (seq-Halts (fill S f (body f) >> doing S (close_file f))
                (doing S (λ s. rename s (name f) out_path)) _
                (seq-Halts (fill S f (body f)) (doing S (close_file f)) _
                  (fill-Halts f (body f) _ (h f _)) (λ t. result_of-Halts (close_file f t).1))
                (λ t. result_of-Halts (rename t (name f) out_path).1))
      ]

  pub decrypt_file-Halts :
      (C : Crypto) (L : Lz4) (in_path out_path : FilePath) (o : Options C.PrivateKey) (fs : Fs)
      → Halts (decrypt_file S C L in_path out_path o fs).1
  unfolding decrypt_file decrypt_to
  decrypt_file-Halts C L in_path out_path o fs = elim (Fallible-cases (S.open_file fs in_path)) [
    | inl (e, opened) ↦ rw (decrypt_file, opened) failure
    | inr (src, opened) ↦
        rw (decrypt_file, opened)
          (seq-Halts (make_parent S out_path)
            (with_temp S (codes ".csenc-*") out_path (decrypt_to S C L src o)) fs
            (make_parent-Halts out_path fs)
            (λ t.
              with_temp-Halts (codes ".csenc-*") out_path (decrypt_to S C L src o) t
                (λ f u. decrypt-Halts (file_out S f u) C L src (at_once S f u) o)))
  ]

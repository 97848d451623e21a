-- ===== src/File/Temp.antt =====
-- csenc/file.go and `EncryptFile` (csenc/encrypt.go): runs through the temporary file that succeed.
use cloudsync_decrypt_go.Common.{
  Fallible-cases, ℕ, ◌≡◌, ◌≢◌, refl, ap, ◌∙◌, inl, inr, Bool-cases, List, [], not, ◌&&◌, eqb, codes,
  none, some, Error, eof, Result, ok, err, out_of_fuel,
}
use cloudsync_decrypt_go.Common.Action.{Action, ◌>>◌, result_of, result_of_ok, seq_ok, seq_run}
use cloudsync_decrypt_go.Wire.RoundTrip.{source}
use cloudsync_decrypt_go.Os.{Reached, Os, FilePath}
use cloudsync_decrypt_go.File.{doing, make_parent, fill, fill_and_rename, with_temp}

-- A file that is there can be opened and read to its end.
abbrev pub IsReadable : (S : Os) → S.Fs → FilePath → Type 0
IsReadable S fs p = (c : List ℕ) → S.content fs p ≡ some c → S.open_file fs p ≡ inr (source c eof)

-- From this tree the target can be written: its directory can be made and a temporary file created in
-- it, writing and closing that file do not fail, and it can be renamed to the target. `now` runs over
-- the trees that writes to the temporary file can reach, where that file is there.
pub record Works (S : Os) (pattern out_path : FilePath) (fs : S.Fs) : Type 0 where
  pub parent : (S.mkdir_all fs (S.dir out_path)).1 ≡ none
  pub temp : S.File
  pub made : (S.create_temp (make_parent S out_path fs).0 (S.dir out_path) pattern).1 ≡ inr temp
  pub writes :
      (w : Reached S temp (S.create_temp (make_parent S out_path fs).0 (S.dir out_path) pattern).0)
      (b : List ℕ)
      → (S.write temp w.now b).1 ≡ none
  pub closes :
      (w : Reached S temp (S.create_temp (make_parent S out_path fs).0 (S.dir out_path) pattern).0)
      → (S.close_file temp w.now).1 ≡ none
  pub renames :
      (w : Reached S temp (S.create_temp (make_parent S out_path fs).0 (S.dir out_path) pattern).0)
      → (S.rename (S.close_file temp w.now).0 (S.name temp) out_path).1 ≡ none

module _ (S : Os) where
  open S use {
    Fs, File, name, content, stored, open_file, create_temp, close_file, rename, remove, dir,
  }

  fill_ok :
      (f : File) (body : Action Fs (Unit {0})) (fs : Fs)
      → (fill S f body fs).1 ≡ ok tt
      → ((body fs).1 ≡ ok tt) × (fill S f body fs ≡ ((body fs).0, ok tt))
  unfolding fill
  fill_ok f body fs h = go (body fs).1 refl
    where
      go :
          (r : Result (Unit {0}))
          → (body fs).1 ≡ r
          → ((body fs).1 ≡ ok tt) × (fill S f body fs ≡ ((body fs).0, ok tt))
      go (ok u) e = (e, rw (e, fill))
      go (err x) e = cc (rw (e, fill) at h)
      go out_of_fuel e = cc (rw (e, fill) at h)

  -- Where filling and renaming succeed, the target has what the body left in the temporary file.
  filled_target :
      (f : File) (out_path : FilePath) (body : Action Fs (Unit {0})) (fs : Fs)
      → (fill_and_rename S f out_path body fs).1 ≡ ok tt
      → ((body fs).1 ≡ ok tt)
        × (content (fill_and_rename S f out_path body fs).0 out_path ≡ content (body fs).0 (name f))
  unfolding fill_and_rename
  filled_target f out_path body fs h =
      let (closed, moved) =
        seq_ok (fill S f body >> doing S (close_file f)) (doing S (λ s. rename s (name f) out_path))
          fs h in
      let (filled, _) = seq_ok (fill S f body) (doing S (close_file f)) fs closed in
      let (ran, left) = fill_ok f body fs filled in
      (
        ran,
        ap (λ (r : Fs × Result (Unit {0})). content r.0 out_path)
              (seq_run (fill S f body >> doing S (close_file f))
                (doing S (λ s. rename s (name f) out_path)) fs closed)
            ∙ S.rename_target _ (name f) out_path (result_of_ok _ moved)
            ∙ ap (λ (r : Fs × Result (Unit {0})). content r.0 (name f))
                (seq_run (fill S f body) (doing S (close_file f)) fs filled)
            ∙ S.close_file-content f _ (name f)
            ∙ ap (λ (r : Fs × Result (Unit {0})). content r.0 (name f)) left,
      )

  -- The temporary file behind a run that succeeds.
  pub record Temp (pattern : List ℕ) (out_path : FilePath) (body : File → Action Fs (Unit {0}))
      (fs : Fs) : Type 0 where
    pub temp : File
    pub made : (create_temp fs (dir out_path) pattern).1 ≡ inr temp
    pub ran : (body temp (create_temp fs (dir out_path) pattern).0).1 ≡ ok tt
    pub moved :
        content (with_temp S pattern out_path body fs).0 out_path
        ≡ content (body temp (create_temp fs (dir out_path) pattern).0).0 (name temp)

  pub with_temp-ok :
      (pattern : List ℕ) (out_path : FilePath) (body : File → Action Fs (Unit {0})) (fs : Fs)
      → ((f : File) → out_path ≢ name f)
      → (with_temp S pattern out_path body fs).1 ≡ ok tt
      → Temp pattern out_path body fs
  unfolding with_temp
  with_temp-ok pattern out_path body fs apart h =
      elim (Fallible-cases (create_temp fs (dir out_path) pattern).1) [
        | inl (e, made) ↦ absurd (bad e made)
        | inr (f, made) ↦
            let done =
              filled_target f out_path (body f) (create_temp fs (dir out_path) pattern).0
                (good f made) in
            record {
              temp = f;
              made = made;
              ran = done.0;
              moved = rw (made, with_temp) (S.remove_others _ (name f) out_path (apart f) ∙ done.1);
            }
      ]
    where
      bad : (e : Error) → (create_temp fs (dir out_path) pattern).1 ≡ inl e → ⊥
      bad e made = cc (rw (made, with_temp) at h)

      good :
          (f : File)
          → (create_temp fs (dir out_path) pattern).1 ≡ inr f
          → (fill_and_rename S f out_path (body f) (create_temp fs (dir out_path) pattern).0).1
            ≡ ok tt
      good f made = rw (made, with_temp) at h

  pub make_parent_ok :
      (out_path : FilePath) (fs : Fs)
      → (S.mkdir_all fs (dir out_path)).1 ≡ none
      → (make_parent S out_path fs).1 ≡ ok tt
  unfolding make_parent
  make_parent_ok out_path fs h =
      let d = dir out_path in
      elim (Bool-cases (not (eqb d []) && not (eqb d (codes ".")))) [
        | inl e ↦ rw (e, h)
        | inr e ↦ rw e
      ]

  filled_runs :
      (f : File) (out_path : FilePath) (body : Action Fs (Unit {0})) (fs : Fs)
      → (body fs).1 ≡ ok tt
      → (close_file f (body fs).0).1 ≡ none
      → (rename (close_file f (body fs).0).0 (name f) out_path).1 ≡ none
      → (fill_and_rename S f out_path body fs).1 ≡ ok tt
  unfolding fill_and_rename fill
  filled_runs f out_path body fs h hc hr =
      let closing = doing S (close_file f) in
      let renaming = doing S (λ s. rename s (name f) out_path) in
      let filled : fill S f body fs ≡ ((body fs).0, ok tt) = rw (h, fill) in
      let closed : (fill S f body >> closing) fs ≡ closing (body fs).0 =
        seq_run (fill S f body) closing fs (ap (λ (r : Fs × Result (Unit {0})). r.1) filled)
        ∙ ap (λ (r : Fs × Result (Unit {0})). closing r.0) filled in
      let renamed =
        seq_run (fill S f body >> closing) renaming fs
          (ap (λ (r : Fs × Result (Unit {0})). r.1) closed ∙ ap result_of hc)
        ∙ ap (λ (r : Fs × Result (Unit {0})). renaming r.0) closed in
      ap (λ (r : Fs × Result (Unit {0})). r.1) renamed ∙ ap result_of hr

  pub with_temp_runs :
      (pattern : List ℕ) (out_path : FilePath) (body : File → Action Fs (Unit {0})) (fs : Fs)
      (f : File)
      → (create_temp fs (dir out_path) pattern).1 ≡ inr f
      → (body f (create_temp fs (dir out_path) pattern).0).1 ≡ ok tt
      → (close_file f (body f (create_temp fs (dir out_path) pattern).0).0).1 ≡ none
      → (rename
          (close_file f (body f (create_temp fs (dir out_path) pattern).0).0).0
          (name f)
          out_path).1
        ≡ none
      → (with_temp S pattern out_path body fs).1 ≡ ok tt
  unfolding with_temp
  with_temp_runs pattern out_path body fs f made h hc hr =
      rw (made, with_temp)
        (filled_runs f out_path (body f) (create_temp fs (dir out_path) pattern).0 h hc hr)

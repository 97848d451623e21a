-- ===== src/Batch/Jobs.antt =====
-- csenc/batch.go: what one job returns, and which files it can change.
use cloudsync_decrypt_go.Common.{
  ℕ, ◌≡◌, ◌≢◌, refl, sym, ◌∙◌, ◌⊎◌, inl, inr, ◌&&◌, Bool-cases, List, none, some, Result, ok, err,
  out_of_fuel, Post-ne, false, err_ne, out_of_fuel_ne, Fallible-cases,
}
use cloudsync_decrypt_go.Crypto.{Crypto}
use cloudsync_decrypt_go.Lz4.{Lz4}
use cloudsync_decrypt_go.Os.{Os, FilePath}
use cloudsync_decrypt_go.Recover.{Options}
use cloudsync_decrypt_go.File.{decrypt_file}
use cloudsync_decrypt_go.File.Halts.{decrypt_file-Halts}
use cloudsync_decrypt_go.File.Atomic.{decrypt_file-content}
use cloudsync_decrypt_go.Batch.{
  BatchConfig, BatchEvent, Job, event_of, skipped_event, failed_event, succeeded_event, size_of,
  is_file, preserve, decrypt_job, run_one,
}
use cloudsync_decrypt_go.Batch.Pool.{Returns, skips, fails, succeeds}

module _ (S : Os) (C : Crypto) (L : Lz4) (cfg : BatchConfig S.Fs C.PrivateKey) where
  open S use {Fs, content}
  open C use {PrivateKey}

  abbrev secrets : Options PrivateKey
  secrets = record { password = cfg.password; private_key = cfg.private_key }

  -- `runOne` always returns an event, and one of those that the workers of `Batch` report.
  pub run_one-Returns :
      (u : Job) (fs : Fs) → (ev : BatchEvent) × ((run_one S C L cfg u fs).1 ≡ ok ev) × Returns u ev
  unfolding run_one decrypt_job
  run_one-Returns u fs = elim (Bool-cases (cfg.skip_existing && is_file S fs u.out_path)) [
    | inl e ↦ (event_of u skipped_event 0 none, rw (run_one, e), skips)
    | inr e ↦ ran e (decrypt_file S C L u.in_path u.out_path secrets fs).1 refl
  ]
    where
      ran :
          (cfg.skip_existing && is_file S fs u.out_path) ≡ false
          → (r : Result (Unit {0})) → (decrypt_file S C L u.in_path u.out_path secrets fs).1 ≡ r
          → (ev : BatchEvent) × ((run_one S C L cfg u fs).1 ≡ ok ev) × Returns u ev
      ran e (ok x) k = (
        event_of u succeeded_event
            (size_of S (decrypt_file S C L u.in_path u.out_path secrets fs).0 u.out_path) none,
        rw (run_one, e, decrypt_job, k),
        succeeds,
      )
      ran e (err x) k = (event_of u failed_event 0 (some x), rw (run_one, e, decrypt_job, k), fails)
      ran e out_of_fuel k =
          absurd (Post-ne (decrypt_file-Halts S C L u.in_path u.out_path secrets fs) k)

  preserve-content :
      (u : Job) (fs : Fs) (p : FilePath) → content (preserve S C L cfg u fs) p ≡ content fs p
  unfolding preserve
  preserve-content u fs p = elim (Bool-cases cfg.preserve_time) [
    | inr e ↦ rw (preserve, e)
    | inl e ↦ elim (Fallible-cases (S.stat fs u.in_path)) [
      | inl (x, k) ↦ rw (preserve, e, k)
      | inr (info, k) ↦ rw (preserve, e, k) (S.chtimes-content fs u.out_path p info.mod_time)
    ]
  ]

  -- `runOne` keeps the content of every file that was there before and is not its target; where it does
  -- not report a success it keeps the target's content too, if the target was there.
  pub run_one-content :
      (u : Job) (fs : Fs) (p : FilePath) (c : List ℕ)
      → content fs p ≡ some c
      → (p ≢ u.out_path)
        ⊎ ((n : ℕ) → (run_one S C L cfg u fs).1 ≢ ok (event_of u succeeded_event n none))
      → content (run_one S C L cfg u fs).0 p ≡ some c
  unfolding run_one decrypt_job
  run_one-content u fs p c there which =
      elim (Bool-cases (cfg.skip_existing && is_file S fs u.out_path)) [
        | inl e ↦ rw (run_one, e) there
        | inr e ↦
            rw (run_one, e)
              (ran (decrypt_file S C L u.in_path u.out_path secrets fs).1 refl
                (rw (run_one, e) at which))
      ]
    where
      after : Fs
      after = (decrypt_file S C L u.in_path u.out_path secrets fs).0

      kept :
          (p ≢ u.out_path) ⊎ ((decrypt_file S C L u.in_path u.out_path secrets fs).1 ≢ ok tt)
          → content after p ≡ some c
      kept = decrypt_file-content S C L u.in_path u.out_path p secrets fs c there

      ran :
          (r : Result (Unit {0}))
          → (decrypt_file S C L u.in_path u.out_path secrets fs).1 ≡ r
          → (p ≢ u.out_path)
            ⊎ ((n : ℕ) → (decrypt_job S C L cfg u fs).1 ≢ ok (event_of u succeeded_event n none))
          → content (decrypt_job S C L cfg u fs).0 p ≡ some c
      ran (ok x) e (inl o) = rw (decrypt_job, e) (preserve-content u after p ∙ kept (inl o))
      ran (ok x) e (inr never) = absurd (never (size_of S after u.out_path) (rw (decrypt_job, e)))
      ran (err x) e k = rw (decrypt_job, e) (kept (inr (λ g. err_ne (sym e ∙ g))))
      ran out_of_fuel e k = rw (decrypt_job, e) (kept (inr (λ g. out_of_fuel_ne (sym e ∙ g))))

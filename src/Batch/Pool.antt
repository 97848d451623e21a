-- ===== src/Batch/Pool.antt =====
-- csenc/batch.go: the goroutines of `Batch`, as a step relation. A job waits until the semaphore has
-- room; its worker runs `runOne` and then makes one change of the report at a time, in any order with
-- the changes of other workers: the atomic additions, the append under the mutex, the call of the
-- hook. What `runOne` returns is any event that it can return on some state of the files, since other
-- workers and programs change files meanwhile.
pub mod Accounts
pub mod Ends
use cloudsync_decrypt_go.Common.{
  ℕ, zero, suc, ◌+◌, ◌≤◌, ◌<◌, ◌≡◌, refl, List, [], ◌∷◌, ◌++◌, ◌⊎◌, inl, inr, Option, none, some,
  Error, length,
}
use cloudsync_decrypt_go.Crypto.{Crypto}
use cloudsync_decrypt_go.Lz4.{Lz4}
use cloudsync_decrypt_go.Os.{Os}
use cloudsync_decrypt_go.Batch.{
  Plan, BatchConfig, first_report, refusal, refused_report, discover, Job, BatchEvent, BatchReport,
  EventKind, succeeded_event, skipped_event, failed_event, Update, update, updates_for, event_of,
}

-- The events that `runOne` can return for a job.
pub data Returns (u : Job) : BatchEvent → Type 0 where
  skips : Returns u (event_of u skipped_event 0 none)
  fails : {e : Error} → Returns u (event_of u failed_event 0 (some e))
  succeeds : {n : ℕ} → Returns u (event_of u succeeded_event n none)

-- A worker in `runOne`, or with changes of the report still to make.
pub data Worker : Type 0 where
  running : Job → Worker
  reporting : List Update → Worker

-- `units` from the loop variable on, the workers that hold the semaphore, and `rep`.
pub record Pool : Type 0 where
  pub waiting : List Job
  pub active : List Worker
  pub report : BatchReport

abbrev pub pool : List Job → List Worker → BatchReport → Pool
pool us ws r = record { waiting = us; active = ws; report = r }

-- One step of one goroutine, for a semaphore of so many places.
pub data Step (places : ℕ) : Pool → Pool → Type 0 where
  spawn :
      (u : Job) (us : List Job) (ws : List Worker) (r : BatchReport)
      → length ws < places
      → Step places (pool (u ∷ us) ws r) (pool us (running u ∷ ws) r)
  return :
      (us : List Job) (u : Job) (before after : List Worker) (r : BatchReport) (ev : BatchEvent)
      → Returns u ev
      → Step places
          (pool us (before ++ (running u ∷ after)) r)
          (pool us (before ++ (reporting (updates_for ev.kind ev) ∷ after)) r)
  change :
      (us : List Job) (x : Update) (xs : List Update) (before after : List Worker) (r : BatchReport)
      → Step places
          (pool us (before ++ (reporting (x ∷ xs) ∷ after)) r)
          (pool us (before ++ (reporting xs ∷ after)) (update x r))
  leave :
      (us : List Job) (before after : List Worker) (r : BatchReport)
      → Step places (pool us (before ++ (reporting [] ∷ after)) r) (pool us (before ++ after) r)

-- So many steps, of any goroutines.
pub data Steps (places : ℕ) (from : Pool) : ℕ → Pool → Type 0 where
  here : Steps places from 0 from
  further :
      {n : ℕ} {mid to : Pool}
      → Steps places from n mid
      → Step places mid to
      → Steps places from (suc n) to

-- `wg.Wait` returns.
abbrev pub IsDone : Pool → Type 0
IsDone p = (p.waiting ≡ []) × (p.active ≡ [])

-- `Batch`: a report at once where the configuration is refused, and else the pool before its first
-- step; `runtime.GOMAXPROCS(0)` has no part in it, as it only bounds the workers.
module _ (S : Os) (C : Crypto) (L : Lz4) where
  open C use {PrivateKey}

  abbrev pub first_pool : Plan → Pool
  first_pool pl = pool pl.jobs [] (first_report pl)

  unfoldable pub batch_start : BatchConfig S.Fs PrivateKey → S.Fs → BatchReport ⊎ Pool
  batch_start cfg fs = elim (refusal S C L cfg) [
    | some e ↦ inl (refused_report e)
    | none ↦ inr (first_pool (discover S C L cfg fs))
  ]

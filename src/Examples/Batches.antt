-- ===== src/Examples/Batches.antt =====
-- Batches at concrete inputs: a job that fails, run by one worker to its end.
use cloudsync_decrypt_go.Common.{
  ℕ, ◌+◌, ◌*◌, ◌≤◌, ◌≡◌, ◌⊎◌, refl, inr, true, false, [], ◌∷◌, none, some, ok, arith, missing_type,
  length,
}
use cloudsync_decrypt_go.Common.Signed.{pos}
use cloudsync_decrypt_go.Batch.{
  BatchConfig, BatchEvent, BatchReport, Job, Plan, discover, discover_from, discover_input,
  discover_file, accepts, push, run_one, is_file, first_report, event_of, failed_event, updates_for,
  workers,
}
use cloudsync_decrypt_go.Batch.Discover.{IsDistinct, discover-IsDistinct}
use cloudsync_decrypt_go.Batch.Jobs.{run_one-content, run_one-Returns}
use cloudsync_decrypt_go.Batch.Pool.{
  Pool, pool, Step, Steps, here, further, spawn, return, change, leave, fails, IsDone, Returns,
}
use cloudsync_decrypt_go.Batch.Pool.Accounts.{report_of_done}
use cloudsync_decrypt_go.Batch.Pool.Ends.{run_ends}
use cloudsync_decrypt_go.Examples.Toy.{toy_crypto, toy_lz4}
use cloudsync_decrypt_go.Examples.Disk.{Tree, toy_os}
use cloudsync_decrypt_go.Examples.Files.{tree}

-- The same file twice.
abbrev pub cfg : BatchConfig Tree ℕ
cfg = record {
  inputs = (1 ∷ []) ∷ (2 ∷ []) ∷ (1 ∷ []) ∷ [];
  output_dir = 5 ∷ [];
  password = some (7 ∷ []);
  private_key = none;
  recursive = false;
  concurrency = pos 1;
  skip_existing = true;
  preserve_time = false;
  filter = some (λ fs p info. true);
}

abbrev pub job : Job
job = record { in_path = 2 ∷ []; out_path = 1 ∷ []; size = 1 }

planned : length (discover toy_os toy_crypto toy_lz4 cfg tree).jobs ≡ 2
unfolding discover discover_from discover_input discover_file accepts push
planned = refl

discover-IsDistinct_example : IsDistinct (discover toy_os toy_crypto toy_lz4 cfg tree).jobs
discover-IsDistinct_example = discover-IsDistinct toy_os toy_crypto toy_lz4 cfg tree

run_one-content_example :
    toy_os.content (run_one toy_os toy_crypto toy_lz4 cfg job tree).0 (1 ∷ [])
    ≡ some (7 ∷ 8 ∷ 9 ∷ [])
unfolding run_one is_file
run_one-content_example =
    run_one-content toy_os toy_crypto toy_lz4 cfg job tree (1 ∷ []) (7 ∷ 8 ∷ 9 ∷ []) refl
      (inr (λ n e. cc))

abbrev pub plan : Plan
plan = record { jobs = job ∷ []; errs = []; seen = (2 ∷ []) ∷ [] }

-- The pool after each step of the one worker.
pub ended : (r : BatchReport) × Steps 1 (pool (job ∷ []) [] (first_report plan)) 6 (pool [] [] r)
unfolding updates_for
ended =
    let r = first_report plan in
    let ev = event_of job failed_event 0 (some missing_type) in
    (
      _,
      further
          (further
            (further
              (further
                (further (further here (spawn job [] [] r (omega arith)))
                  (return [] job [] [] r ev fails))
                (change [] _ _ [] [] _))
              (change [] _ _ [] [] _))
            (change [] _ _ [] [] _))
          (leave [] [] [] _),
    )

report_of_done_example :
    (ended.0.succeeded + ended.0.skipped + ended.0.failed ≡ 1)
    × (length ended.0.errors ≡ ended.0.failed)
    × (ended.0.discovered ≡ 1)
report_of_done_example = report_of_done 1 6 plan (pool [] [] ended.0) ended.1 (refl, refl)

run_ends_example :
    (6 ≤ 7 * 1)
    × (IsDone (pool [] [] ended.0) ⊎ ((q : Pool) × Step (workers 1 (pos 1)) (pool [] [] ended.0) q))
unfolding workers
run_ends_example = run_ends 1 (pos 1) 6 plan (pool [] [] ended.0) (omega arith) ended.1

run_one-Returns_example :
    (ev : BatchEvent) × ((run_one toy_os toy_crypto toy_lz4 cfg job tree).1 ≡ ok ev)
    × Returns job ev
run_one-Returns_example = run_one-Returns toy_os toy_crypto toy_lz4 cfg job tree

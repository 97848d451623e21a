-- ===== src/Batch/Pool/Ends.antt =====
-- csenc/batch.go: how long the workers run.
use cloudsync_decrypt_go.Common.{
  ℕ, zero, suc, ◌+◌, ◌*◌, ◌≤◌, ◌<◌, refl, ◌⊎◌, inl, inr, List, [], ◌∷◌, length, arith,
}
use cloudsync_decrypt_go.Common.Signed.{ℤ, pos, negsuc}
use cloudsync_decrypt_go.Batch.{
  Plan, first_report, workers, Job, BatchEvent, BatchReport, skipped_event, updates_for, event_of,
}
use cloudsync_decrypt_go.Batch.Pool.{
  Returns, skips, fails, succeeds, Worker, running, reporting, Pool, pool, Step, spawn, return,
  change, leave, Steps, here, further, IsDone,
}
use cloudsync_decrypt_go.Batch.Pool.Accounts.{sum, sum_at}

-- The steps that a worker, and a pool, can still make.
abbrev left : Worker → ℕ
left (running u) = 6
left (reporting xs) = 1 + length xs

abbrev all_left : Pool → ℕ
all_left p = 7 * length p.waiting + sum left p.active

returned_left : {u : Job} {ev : BatchEvent} → Returns u ev → 1 + length (updates_for ev.kind ev) ≤ 5
unfolding updates_for
returned_left skips = omega arith
returned_left fails = omega arith
returned_left succeeds = omega arith

Step-left : {places : ℕ} {p q : Pool} → Step places p q → all_left q < all_left p
Step-left (spawn u us ws r room) = omega arith
Step-left (return us u before after r ev h) = omega (
  arith,
  sum_at left before (running u) after,
  sum_at left before (reporting (updates_for ev.kind ev)) after,
  returned_left h,
)
Step-left (change us x xs before after r) =
    omega (
      arith,
      sum_at left before (reporting (x ∷ xs)) after,
      sum_at left before (reporting xs) after,
    )
Step-left (leave us before after r) = omega (arith, sum_at left before (reporting []) after)

Steps-left :
    {places : ℕ} {p : Pool} {n : ℕ} {q : Pool} → Steps places p n q → n + all_left q ≤ all_left p
Steps-left here = omega arith
Steps-left (further ss s) = omega (arith, Steps-left ss, Step-left s)

-- A pool that is not done can step.
next_Step :
    (places : ℕ)
    → 0 < places
    → (us : List Job) (ws : List Worker) (r : BatchReport)
    → IsDone (pool us ws r) ⊎ ((q : Pool) × Step places (pool us ws r) q)
next_Step places room [] [] r = inl (refl, refl)
next_Step places room (u ∷ us) [] r = inr (_, spawn u us [] r room)
next_Step places room us (running u ∷ ws) r =
    inr (_, return us u [] ws r (event_of u skipped_event 0 _) skips)
next_Step places room us (reporting (x ∷ xs) ∷ ws) r = inr (_, change us x xs [] ws r)
next_Step places room us (reporting [] ∷ ws) r = inr (_, leave us [] ws r)

workers_pos : (procs : ℕ) (c : ℤ) → 0 < procs → 0 < workers procs c
unfolding workers
workers_pos procs (pos zero) h = h
workers_pos procs (pos (suc n)) h = omega arith
workers_pos procs (negsuc n) h = h

-- With at least one processor, whatever the concurrency that the configuration asks for: a run of
-- `Batch` makes at most seven steps for each job, and as long as it is not done some worker can step.
pub run_ends :
    (procs : ℕ) (c : ℤ) (n : ℕ) (pl : Plan) (p : Pool)
    → 0 < procs
    → Steps (workers procs c) (pool pl.jobs [] (first_report pl)) n p
    → (n ≤ 7 * length pl.jobs) × (IsDone p ⊎ ((q : Pool) × Step (workers procs c) p q))
run_ends procs c n pl p h ss = (
  omega (arith, Steps-left ss),
  next_Step (workers procs c) (workers_pos procs c h) p.waiting p.active p.report,
)

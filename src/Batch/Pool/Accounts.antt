-- ===== src/Batch/Pool/Accounts.antt =====
-- csenc/batch.go: the counters of the report under every interleaving of the workers.
use cloudsync_decrypt_go.Common.{
  ℕ, ◌+◌, ◌≤◌, ◌≡◌, refl, ap, ◌∙◌, List, [], ◌∷◌, ◌++◌, length, length-append, arith,
}
use cloudsync_decrypt_go.Batch.{
  Plan, first_report, Job, BatchEvent, BatchReport, Update, add_succeeded, add_skipped, add_failed,
  add_in, add_out, add_error, call_hook, update, updates_for,
}
use cloudsync_decrypt_go.Batch.Pool.{
  Returns, skips, fails, succeeds, Worker, running, reporting, Pool, pool, Step, spawn, return,
  change, leave, Steps, here, further, IsDone,
}

-- What the changes that are still to make will add to a number.
abbrev pub owed : (Update → ℕ) → List Update → ℕ
owed weight [] = 0
owed weight (x ∷ xs) = weight x + owed weight xs

-- A sum over the workers.
abbrev pub sum : (Worker → ℕ) → List Worker → ℕ
sum f [] = 0
sum f (w ∷ ws) = f w + sum f ws

pub sum_at :
    (f : Worker → ℕ) (before : List Worker) (w : Worker) (after : List Worker)
    → sum f (before ++ (w ∷ after)) ≡ f w + sum f (before ++ after)
sum_at f [] w after = refl
sum_at f (v ∷ before) w after = omega (arith, sum_at f before w after)

-- Whether a change closes the account of its job; whether it counts a failure, and whether it lists one.
abbrev counts : Update → ℕ
counts add_succeeded = 1
counts add_skipped = 1
counts add_failed = 1
counts (add_in n) = 0
counts (add_out n) = 0
counts (add_error e) = 0
counts (call_hook e) = 0

abbrev fails_in : Update → ℕ
fails_in add_failed = 1
fails_in add_succeeded = 0
fails_in add_skipped = 0
fails_in (add_in n) = 0
fails_in (add_out n) = 0
fails_in (add_error e) = 0
fails_in (call_hook e) = 0

abbrev lists : Update → ℕ
lists (add_error e) = 1
lists add_failed = 0
lists add_succeeded = 0
lists add_skipped = 0
lists (add_in n) = 0
lists (add_out n) = 0
lists (call_hook e) = 0

-- Jobs that no counter has yet.
abbrev open_jobs : Worker → ℕ
open_jobs (running u) = 1
open_jobs (reporting xs) = owed counts xs

abbrev open_failures : Worker → ℕ
open_failures (running u) = 0
open_failures (reporting xs) = owed fails_in xs

abbrev open_errors : Worker → ℕ
open_errors (running u) = 0
open_errors (reporting xs) = owed lists xs

abbrev done : BatchReport → ℕ
done r = r.succeeded + r.skipped + r.failed

returned_jobs :
    {u : Job} {ev : BatchEvent} → Returns u ev → owed counts (updates_for ev.kind ev) ≡ 1
unfolding updates_for
returned_jobs skips = refl
returned_jobs fails = refl
returned_jobs succeeds = refl

returned_failures :
    {u : Job} {ev : BatchEvent}
    → Returns u ev
    → owed fails_in (updates_for ev.kind ev) ≡ owed lists (updates_for ev.kind ev)
unfolding updates_for
returned_failures skips = refl
returned_failures fails = refl
returned_failures succeeds = refl

update-done : (x : Update) (r : BatchReport) → done (update x r) ≡ done r + counts x
unfolding update
update-done add_succeeded r = omega arith
update-done add_skipped r = omega arith
update-done add_failed r = omega arith
update-done (add_in n) r = omega arith
update-done (add_out n) r = omega arith
update-done (add_error e) r = omega arith
update-done (call_hook e) r = omega arith

update-failed : (x : Update) (r : BatchReport) → (update x r).failed ≡ r.failed + fails_in x
unfolding update
update-failed add_succeeded r = omega arith
update-failed add_skipped r = omega arith
update-failed add_failed r = omega arith
update-failed (add_in n) r = omega arith
update-failed (add_out n) r = omega arith
update-failed (add_error e) r = omega arith
update-failed (call_hook e) r = omega arith

update-errors :
    (x : Update) (r : BatchReport) → length (update x r).errors ≡ length r.errors + lists x
unfolding update
update-errors add_succeeded r = omega arith
update-errors add_skipped r = omega arith
update-errors add_failed r = omega arith
update-errors (add_in n) r = omega arith
update-errors (add_out n) r = omega arith
update-errors (add_error e) r = length-append r.errors (e ∷ [])
update-errors (call_hook e) r = omega arith

-- Every job is waiting, with a worker that owes a count for it, or counted.
abbrev jobs_of : Pool → ℕ
jobs_of p = length p.waiting + sum open_jobs p.active + done p.report

-- Failures counted or owed, and errors listed or owed.
abbrev failures_of : Pool → ℕ
failures_of p = sum open_failures p.active + p.report.failed

abbrev errors_of : Pool → ℕ
errors_of p = sum open_errors p.active + length p.report.errors

Step-jobs : {places : ℕ} {p q : Pool} → Step places p q → jobs_of q ≡ jobs_of p
Step-jobs (spawn u us ws r room) = omega arith
Step-jobs (return us u before after r ev h) = omega (
  arith,
  sum_at open_jobs before (running u) after,
  sum_at open_jobs before (reporting (updates_for ev.kind ev)) after,
  returned_jobs h,
)
Step-jobs (change us x xs before after r) = omega (
  arith,
  sum_at open_jobs before (reporting (x ∷ xs)) after,
  sum_at open_jobs before (reporting xs) after,
  update-done x r,
)
Step-jobs (leave us before after r) = omega (arith, sum_at open_jobs before (reporting []) after)

Step-balance :
    {places : ℕ} {p q : Pool}
    → Step places p q
    → errors_of p ≡ failures_of p
    → errors_of q ≡ failures_of q
Step-balance (spawn u us ws r room) h = omega arith
Step-balance (return us u before after r ev k) h = omega (
  arith,
  sum_at open_failures before (running u) after,
  sum_at open_failures before (reporting (updates_for ev.kind ev)) after,
  sum_at open_errors before (running u) after,
  sum_at open_errors before (reporting (updates_for ev.kind ev)) after,
  returned_failures k,
)
Step-balance (change us x xs before after r) h = omega (
  arith,
  sum_at open_failures before (reporting (x ∷ xs)) after,
  sum_at open_failures before (reporting xs) after,
  sum_at open_errors before (reporting (x ∷ xs)) after,
  sum_at open_errors before (reporting xs) after,
  update-failed x r,
  update-errors x r,
)
Step-balance (leave us before after r) h = omega (
  arith,
  sum_at open_failures before (reporting []) after,
  sum_at open_errors before (reporting []) after,
)

update-discovered : (x : Update) (r : BatchReport) → (update x r).discovered ≡ r.discovered
unfolding update
update-discovered add_succeeded r = refl
update-discovered add_skipped r = refl
update-discovered add_failed r = refl
update-discovered (add_in n) r = refl
update-discovered (add_out n) r = refl
update-discovered (add_error e) r = refl
update-discovered (call_hook e) r = refl

Step-discovered :
    {places : ℕ} {p q : Pool} → Step places p q → q.report.discovered ≡ p.report.discovered
Step-discovered (spawn u us ws r room) = refl
Step-discovered (return us u before after r ev h) = refl
Step-discovered (change us x xs before after r) = update-discovered x r
Step-discovered (leave us before after r) = refl

-- What the steps keep, from any pool in which it holds.
record Balanced (jobs discoveries : ℕ) (p : Pool) : Type 0 where
  all_jobs : jobs_of p ≡ jobs
  balance : errors_of p ≡ failures_of p
  discoveries_kept : p.report.discovered ≡ discoveries

Steps-Balanced :
    {places jobs discoveries : ℕ} {p : Pool} {n : ℕ} {q : Pool}
    → Steps places p n q
    → Balanced jobs discoveries p
    → Balanced jobs discoveries q
Steps-Balanced here h = h
Steps-Balanced (further ss s) h =
    let k = Steps-Balanced ss h in
    record {
      all_jobs = Step-jobs s ∙ k.all_jobs;
      balance = Step-balance s k.balance;
      discoveries_kept = Step-discovered s ∙ k.discoveries_kept;
    }

first-Balanced :
    (pl : Plan)
    → Balanced
        (length pl.jobs + length pl.errs)
        (length pl.jobs)
        (pool pl.jobs [] (first_report pl))
unfolding first_report
first-Balanced pl = record {
  all_jobs = omega arith;
  balance = omega arith;
  discoveries_kept = refl;
}

-- Whatever the order in which the workers of `Batch` step: when all are done, the numbers of those
-- that succeeded, were skipped and failed add up to the jobs discovered and the errors of the discovery; the report lists as many errors as it counts failures;
-- and it still has the number of jobs discovered.
pub report_of_done :
    (places n : ℕ) (pl : Plan) (p : Pool)
    → Steps places (pool pl.jobs [] (first_report pl)) n p
    → IsDone p
    → (p.report.succeeded + p.report.skipped + p.report.failed ≡ length pl.jobs + length pl.errs)
      × (length p.report.errors ≡ p.report.failed)
      × (p.report.discovered ≡ length pl.jobs)
report_of_done places n pl p ss (no_jobs, no_workers) =
    let b = Steps-Balanced ss (first-Balanced pl) in
    let k₁ = ap (λ (us : List Job). length us) no_jobs in
    let k₂ = ap (sum open_jobs) no_workers in
    let k₃ = ap (sum open_failures) no_workers in
    let k₄ = ap (sum open_errors) no_workers in
    let b₁ = b.all_jobs in let b₂ = b.balance in (omega arith, omega arith, b.discoveries_kept)

Step-errors :
    {places : ℕ} {p q : Pool} → Step places p q → length p.report.errors ≤ length q.report.errors
Step-errors (spawn u us ws r room) = omega arith
Step-errors (return us u before after r ev h) = omega arith
Step-errors (change us x xs before after r) = omega (arith, update-errors x r)
Step-errors (leave us before after r) = omega arith

-- The errors of the discovery stay in the report.
pub Steps-errors :
    {places : ℕ} {p : Pool} {n : ℕ} {q : Pool}
    → Steps places p n q
    → length p.report.errors ≤ length q.report.errors
Steps-errors here = omega arith
Steps-errors (further ss s) = omega (arith, Steps-errors ss, Step-errors s)

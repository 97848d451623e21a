-- ===== src/Batch.antt =====
-- csenc/batch.go: the configuration, discovery, one job, and the report of `Batch`. Times, the log
-- hook and the text of `Format` are left out. The files that discovery reads do not change under it.
pub mod Pool
pub mod Jobs
pub mod Discover
use cloudsync_decrypt_go.Common.{
  ℕ, zero, suc, ◌+◌, Bool, true, false, not, ◌&&◌, ◌||◌, List, [], ◌∷◌, ◌++◌, Option, none, some,
  Error, no_output_dir, no_batch_secret, is_a_directory, Result, ok, err, out_of_fuel, inl, inr,
  eqb, if◌then◌else◌, length, Fallible,
}
use cloudsync_decrypt_go.Common.Signed.{ℤ, pos, negsuc}
use cloudsync_decrypt_go.Crypto.{Crypto}
use cloudsync_decrypt_go.Lz4.{Lz4}
use cloudsync_decrypt_go.Os.{Os, FilePath, FileInfo, Visit, walk_error, entry}
use cloudsync_decrypt_go.Recover.{Options}
use cloudsync_decrypt_go.File.{is_csenc_file, decrypt_file}

-- `BatchEventKind`
pub data EventKind : Type 0 where
  discovered_event succeeded_event skipped_event failed_event : EventKind

pub record BatchEvent : Type 0 where
  pub kind : EventKind
  pub input_path : FilePath
  pub output_path : FilePath
  pub input_size : ℕ
  pub output_size : ℕ
  pub cause : Option Error

pub record BatchError : Type 0 where
  pub failed_path : FilePath
  pub reason : Error

pub record BatchReport : Type 0 where
  pub discovered : ℕ
  pub succeeded : ℕ
  pub skipped : ℕ
  pub failed : ℕ
  pub bytes_in : ℕ
  pub bytes_out : ℕ
  pub errors : List BatchError
  -- The calls of `OnEvent`.
  pub events : List BatchEvent

abbrev pub empty_report : BatchReport
empty_report = record {
  discovered = 0;
  succeeded = 0;
  skipped = 0;
  failed = 0;
  bytes_in = 0;
  bytes_out = 0;
  errors = [];
  events = [];
}

-- `unit`
pub record Job : Type 0 where
  pub in_path : FilePath
  pub out_path : FilePath
  pub size : ℕ

pub record BatchConfig (Fs PrivateKey : Type 0) : Type 0 where
  pub inputs : List FilePath
  pub output_dir : FilePath
  pub password : Option (List ℕ)
  pub private_key : Option PrivateKey
  pub recursive : Bool
  pub concurrency : ℤ
  pub skip_existing : Bool
  pub preserve_time : Bool
  pub filter : Option (Fs → FilePath → FileInfo → Bool)

abbrev pub is_seen : FilePath → List FilePath → Bool
is_seen p [] = false
is_seen p (q ∷ qs) = eqb q p || is_seen p qs

-- The variables that `discover` and the functions in it share.
pub record Plan : Type 0 where
  pub jobs : List Job
  pub errs : List BatchError
  pub seen : List FilePath

abbrev pub empty_plan : Plan
empty_plan = record { jobs = []; errs = []; seen = [] }

unfoldable pub push : Job → Plan → Plan
push u pl =
    if is_seen u.in_path pl.seen
    then pl
    else record pl { jobs = pl.jobs ++ (u ∷ []); seen = u.in_path ∷ pl.seen }

unfoldable pub record_error : FilePath → Error → Plan → Plan
record_error p e pl = record pl { errs = pl.errs ++ (record { failed_path = p; reason = e } ∷ []) }

-- `BatchEvent{…}` for a job.
abbrev pub event_of : Job → EventKind → ℕ → Option Error → BatchEvent
event_of u k n e = record {
  kind = k;
  input_path = u.in_path;
  output_path = u.out_path;
  input_size = u.size;
  output_size = n;
  cause = e;
}

-- What an event adds to the report: the steps that a worker makes for it, in their order.
pub data Update : Type 0 where
  add_succeeded add_skipped add_failed : Update
  add_in add_out : ℕ → Update
  add_error : BatchError → Update
  call_hook : BatchEvent → Update

unfoldable pub update : Update → BatchReport → BatchReport
update add_succeeded r = record r { succeeded = r.succeeded + 1 }
update add_skipped r = record r { skipped = r.skipped + 1 }
update add_failed r = record r { failed = r.failed + 1 }
update (add_in n) r = record r { bytes_in = r.bytes_in + n }
update (add_out n) r = record r { bytes_out = r.bytes_out + n }
update (add_error e) r = record r { errors = r.errors ++ (e ∷ []) }
update (call_hook ev) r = record r { events = r.events ++ (ev ∷ []) }

-- `ev.Err`, where it is set.
abbrev pub error_of : Option Error → Error
error_of none = Error.nil_pointer
error_of (some e) = e

unfoldable pub updates_for : EventKind → BatchEvent → List Update
updates_for succeeded_event ev =
    add_succeeded ∷ add_in ev.input_size ∷ add_out ev.output_size ∷ call_hook ev ∷ []
updates_for skipped_event ev = add_skipped ∷ call_hook ev ∷ []
updates_for failed_event ev =
    add_failed
    ∷ add_error (record { failed_path = ev.input_path; reason = error_of ev.cause })
    ∷ call_hook ev
    ∷ []
updates_for discovered_event ev = call_hook ev ∷ []

-- `cfg.Concurrency`, or the number of processors.
unfoldable pub workers : ℕ → ℤ → ℕ
workers procs (pos zero) = procs
workers procs (pos (suc n)) = suc n
workers procs (negsuc n) = procs

abbrev pub refused_report : Error → BatchReport
refused_report e = record empty_report {
  failed = 1;
  errors = record { failed_path = []; reason = e } ∷ [];
}

unfoldable pub announcements : List Job → List BatchEvent
announcements [] = []
announcements (u ∷ us) = event_of u discovered_event 0 none ∷ announcements us

-- The report before the first worker starts.
unfoldable pub first_report : Plan → BatchReport
first_report pl = record empty_report {
  discovered = length pl.jobs;
  failed = length pl.errs;
  errors = pl.errs;
  events = announcements pl.jobs;
}

module _ (S : Os) where
  open S use {Fs, stat, walk_dir, base, clean, join, rel, chtimes}

  -- `defaultCsencFilter`
  unfoldable pub default_csenc_filter : Fs → FilePath → FileInfo → Bool
  default_csenc_filter fs path info = elim (is_csenc_file S fs path) [
    | ok b ↦ b
    | err e ↦ false
    | out_of_fuel ↦ false
  ]

  -- `os.Stat` finds something that is no directory.
  unfoldable pub is_file : Fs → FilePath → Bool
  is_file fs p = elim (stat fs p) [ inl e ↦ false | inr info ↦ not info.is_dir ]

  -- `st.Size()` where `os.Stat` succeeds.
  unfoldable pub size_of : Fs → FilePath → ℕ
  size_of fs p = elim (stat fs p) [ inl e ↦ 0 | inr info ↦ info.size ]

  module _ (C : Crypto) (L : Lz4) (cfg : BatchConfig Fs C.PrivateKey) where
    open C use {PrivateKey}

    unfoldable pub accepts : Fs → FilePath → FileInfo → Bool
    accepts fs p info = elim cfg.filter [
      | none ↦ default_csenc_filter fs p info
      | some f ↦ f fs p info
    ]

    -- The function that `filepath.WalkDir` calls.
    unfoldable pub visit : Fs → FilePath → Visit → Plan → Plan
    visit fs root (walk_error p e) pl = record_error p e pl
    visit fs root (entry p d info) pl = if d then pl else elim info [
      | inl e ↦ record_error p e pl
      | inr fi ↦ if not (accepts fs p fi) then pl else elim (rel root p) [
        | inl e ↦ record_error p e pl
        | inr r ↦
            push
              (record {
                in_path = p;
                out_path = join (cfg.output_dir ∷ base root ∷ r ∷ []);
                size = fi.size;
              })
              pl
      ]
    ]

    unfoldable pub visit_all : Fs → FilePath → List Visit → Plan → Plan
    visit_all fs root [] pl = pl
    visit_all fs root (v ∷ vs) pl = visit_all fs root vs (visit fs root v pl)

    unfoldable pub discover_dir : Fs → FilePath → Plan → Plan
    discover_dir fs p pl =
        if not cfg.recursive
        then record_error p is_a_directory pl
        else (let walked = walk_dir fs (clean p) in
            let pl' = visit_all fs (clean p) walked.0 pl in
            elim walked.1 [ none ↦ pl' | some e ↦ record_error p e pl' ])

    unfoldable pub discover_file : Fs → FilePath → FileInfo → Plan → Plan
    discover_file fs p info pl =
        if not (accepts fs p info)
        then pl
        else push
            (record {
              in_path = p;
              out_path = join (cfg.output_dir ∷ base p ∷ []);
              size = info.size;
            })
            pl

    unfoldable pub discover_input : Fs → FilePath → Plan → Plan
    discover_input fs p pl = elim (stat fs p) [
      | inl e ↦ record_error p e pl
      | inr info ↦ if info.is_dir then discover_dir fs p pl else discover_file fs p info pl
    ]

    unfoldable pub discover_from : Fs → List FilePath → Plan → Plan
    discover_from fs [] pl = pl
    discover_from fs (p ∷ ps) pl = discover_from fs ps (discover_input fs p pl)

    unfoldable pub discover : Fs → Plan
    discover fs = discover_from fs cfg.inputs empty_plan

    -- Copying the time of the source; its failure is ignored.
    unfoldable pub preserve : Job → Fs → Fs
    preserve u fs = if not cfg.preserve_time then fs else elim (stat fs u.in_path) [
      | inl e ↦ fs
      | inr info ↦ (chtimes fs u.out_path info.mod_time).0
    ]

    -- `DecryptFile` and what follows it.
    unfoldable pub decrypt_job : Job → Fs → Fs × Result BatchEvent
    decrypt_job u fs =
        let asked : Options PrivateKey = record {
          password = cfg.password;
          private_key = cfg.private_key;
        } in
        let r = decrypt_file S C L u.in_path u.out_path asked fs in
        elim r.1 [
          | err e ↦ (r.0, ok (event_of u failed_event 0 (some e)))
          | ok x ↦ (preserve u r.0, ok (event_of u succeeded_event (size_of r.0 u.out_path) none))
          | out_of_fuel ↦ (r.0, out_of_fuel)
        ]

    unfoldable pub run_one : Job → Fs → Fs × Result BatchEvent
    run_one u fs =
        if cfg.skip_existing && is_file fs u.out_path
        then (fs, ok (event_of u skipped_event 0 none))
        else decrypt_job u fs

    -- The checks of the configuration.
    unfoldable pub refusal : Option Error
    refusal = if eqb cfg.output_dir [] then some no_output_dir else elim cfg.password [
      | some b ↦ none
      | none ↦ elim cfg.private_key [ some k ↦ none | none ↦ some no_batch_secret ]
    ]

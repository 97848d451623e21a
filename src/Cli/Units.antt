-- ===== src/Cli/Units.antt =====
-- cmd/cloudsync-decrypt/main.go: `discoverEncryptUnits` and `runEncryptOne`, with the variables and the
-- events of csenc/batch.go.
use cloudsync_decrypt_go.Common.{
  inl, inr, Bool, true, false, not, ◌&&◌, Bool-cases, List, [], ◌∷◌, ◌++◌, none, some,
  is_a_directory, Result, ok, err, out_of_fuel, Fallible-cases, if◌then◌else◌,
}
use cloudsync_decrypt_go.Wire.{Source}
use cloudsync_decrypt_go.Crypto.{Crypto}
use cloudsync_decrypt_go.Lz4.{Lz4}
use cloudsync_decrypt_go.Os.{Os, FilePath, Visit, walk_error, entry}
use cloudsync_decrypt_go.Session.{EncryptOptions}
use cloudsync_decrypt_go.File.{encrypt_file}
use cloudsync_decrypt_go.Batch.{
  Job, Plan, BatchEvent, is_seen, empty_plan, push, record_error, event_of, succeeded_event,
  skipped_event, failed_event, is_file, size_of,
}
use cloudsync_decrypt_go.Batch.Discover.{
  IsDistinct, IsPlan, push-IsPlan, record_error-IsPlan, if-IsPlan, note-IsPlan, push_new-IsPlan,
}

-- `seen[p] = struct{}{}`
abbrev pub note : FilePath → Plan → Plan
note p pl = record pl { seen = p ∷ pl.seen }

abbrev pub add_unit : Job → Plan → Plan
add_unit u pl = record pl { jobs = pl.jobs ++ (u ∷ []) }

module _ (S : Os) where
  open S use {Fs, stat, walk_dir, base, clean, join, rel, chtimes}

  module _ (out_dir : FilePath) (recursive : Bool) where
    -- The function that `filepath.WalkDir` calls; a path is noted before its relative path is taken.
    unfoldable pub visit_unit : FilePath → Visit → Plan → Plan
    visit_unit root (walk_error p e) pl = record_error p e pl
    visit_unit root (entry p d info) pl = if d then pl else elim info [
      | inl e ↦ record_error p e pl
      | inr fi ↦ if is_seen p pl.seen then pl else elim (rel root p) [
        | inl e ↦ record_error p e (note p pl)
        | inr r ↦
            add_unit
              (record {
                in_path = p;
                out_path = join (out_dir ∷ base root ∷ r ∷ []);
                size = fi.size;
              })
              (note p pl)
      ]
    ]

    unfoldable pub visit_units : FilePath → List Visit → Plan → Plan
    visit_units root [] pl = pl
    visit_units root (v ∷ vs) pl = visit_units root vs (visit_unit root v pl)

    unfoldable pub unit_dir : Fs → FilePath → Plan → Plan
    unit_dir fs p pl =
        if not recursive
        then record_error p is_a_directory pl
        else visit_units (clean p) (walk_dir fs (clean p)).0 pl

    unfoldable pub unit_input : Fs → FilePath → Plan → Plan
    unit_input fs p pl = elim (stat fs p) [
      | inl e ↦ record_error p e pl
      | inr info ↦
          if not info.is_dir
          then push
              (record { in_path = p; out_path = join (out_dir ∷ base p ∷ []); size = info.size }) pl
          else unit_dir fs p pl
    ]

    unfoldable pub units_from : Fs → List FilePath → Plan → Plan
    units_from fs [] pl = pl
    units_from fs (p ∷ ps) pl = units_from fs ps (unit_input fs p pl)

    unfoldable pub discover_encrypt_units : Fs → List FilePath → Plan
    discover_encrypt_units fs inputs = units_from fs inputs empty_plan

  module _ (C : Crypto) (L : Lz4) (crand : Source) (skip_exist keep_mtime : Bool)
      (build_opts : FilePath → EncryptOptions C.PublicKey) where
    unfoldable pub keep_time : Job → Fs → Fs
    keep_time u fs = if not keep_mtime then fs else elim (stat fs u.in_path) [
      | inl e ↦ fs
      | inr info ↦ (chtimes fs u.out_path info.mod_time).0
    ]

    unfoldable pub encrypt_job : Job → Fs → Fs × Result BatchEvent
    encrypt_job u fs =
        let r = encrypt_file S C L crand u.in_path u.out_path (build_opts u.in_path) fs in
        elim r.1 [
          | err e ↦ (r.0, ok (event_of u failed_event 0 (some e)))
          | ok x ↦
              (keep_time u r.0, ok (event_of u succeeded_event (size_of S r.0 u.out_path) none))
          | out_of_fuel ↦ (r.0, out_of_fuel)
        ]

    unfoldable pub run_encrypt_one : Job → Fs → Fs × Result BatchEvent
    run_encrypt_one u fs =
        if skip_exist && is_file S fs u.out_path
        then (fs, ok (event_of u skipped_event 0 none))
        else encrypt_job u fs

module _ (S : Os) (out_dir : FilePath) (recursive : Bool) where
  visit_unit-IsPlan :
      (root : FilePath) (v : Visit) (pl : Plan)
      → IsPlan pl
      → IsPlan (visit_unit S out_dir recursive root v pl)
  unfolding visit_unit
  visit_unit-IsPlan root (walk_error p e) pl h = record_error-IsPlan p e pl h
  visit_unit-IsPlan root (entry p true info) pl h = h
  visit_unit-IsPlan root (entry p false (inl e)) pl h = record_error-IsPlan p e pl h
  visit_unit-IsPlan root (entry p false (inr fi)) pl h = elim (Bool-cases (is_seen p pl.seen)) [
    | inl k ↦ rw (visit_unit, k) h
    | inr k ↦ elim (Fallible-cases (S.rel root p)) [
      | inl (e, m) ↦
          rw (visit_unit, k, m) (record_error-IsPlan p e (note p pl) (note-IsPlan p pl h))
      | inr (r, m) ↦ rw (visit_unit, k, m) (push_new-IsPlan _ pl k h)
    ]
  ]

  visit_units-IsPlan :
      (root : FilePath) (vs : List Visit) (pl : Plan)
      → IsPlan pl
      → IsPlan (visit_units S out_dir recursive root vs pl)
  unfolding visit_units
  visit_units-IsPlan root [] pl h = h
  visit_units-IsPlan root (v ∷ vs) pl h =
      visit_units-IsPlan root vs _ (visit_unit-IsPlan root v pl h)

  unit_input-IsPlan :
      (fs : S.Fs) (p : FilePath) (pl : Plan)
      → IsPlan pl
      → IsPlan (unit_input S out_dir recursive fs p pl)
  unfolding unit_input unit_dir
  unit_input-IsPlan fs p pl h = elim (Fallible-cases (S.stat fs p)) [
    | inl (e, k) ↦ rw (unit_input, k) (record_error-IsPlan p e pl h)
    | inr (info, k) ↦
        rw (unit_input, k)
          (if-IsPlan (not info.is_dir) (push-IsPlan _ pl h) (
            if-IsPlan (not recursive) (record_error-IsPlan p is_a_directory pl h)
              (visit_units-IsPlan (S.clean p) _ pl h)))
  ]

  units_from-IsPlan :
      (fs : S.Fs) (ps : List FilePath) (pl : Plan)
      → IsPlan pl
      → IsPlan (units_from S out_dir recursive fs ps pl)
  unfolding units_from
  units_from-IsPlan fs [] pl h = h
  units_from-IsPlan fs (p ∷ ps) pl h = units_from-IsPlan fs ps _ (unit_input-IsPlan fs p pl h)

  -- `discoverEncryptUnits` plans no two units with the same input path.
  pub discover_encrypt_units-IsDistinct :
      (fs : S.Fs) (inputs : List FilePath)
      → IsDistinct (discover_encrypt_units S out_dir recursive fs inputs).jobs
  unfolding discover_encrypt_units
  discover_encrypt_units-IsDistinct fs inputs =
      (units_from-IsPlan fs inputs empty_plan (record { noted = tt; distinct = tt })).distinct

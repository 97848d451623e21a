-- ===== src/Batch/Discover.antt =====
-- csenc/batch.go: what `discover` plans.
use cloudsync_decrypt_go.Common.{
  ◌≡◌, ◌≢◌, refl, sym, ◌∙◌, inl, inr, Bool, true, false, ◌||◌, Bool-cases, List, [], ◌∷◌, ◌++◌,
  Error, eqb, eqb_refl, eqb→eq, Option-cases, is_a_directory, Fallible-cases, if◌then◌else◌, All,
  All-append,
}
use mathlib.Core.Path.{subst}
use cloudsync_decrypt_go.Crypto.{Crypto}
use cloudsync_decrypt_go.Lz4.{Lz4}
use cloudsync_decrypt_go.Os.{Os, FilePath, FileInfo, Visit, walk_error, entry}
use cloudsync_decrypt_go.Batch.{
  BatchConfig, Job, Plan, is_seen, empty_plan, push, record_error, accepts, visit, visit_all,
  discover_dir, discover_file, discover_input, discover_from, discover,
}

-- No path stands for two jobs.
abbrev pub IsDistinct : List Job → Type 0
IsDistinct [] = Unit {0}
IsDistinct (u ∷ us) = All (λ (v : Job). eqb u.in_path v.in_path ≡ false) us × IsDistinct us

-- Every job so far has been seen, and no two have one path.
pub record IsPlan (pl : Plan) : Type 0 where
  pub noted : All (λ (u : Job). is_seen u.in_path pl.seen ≡ true) pl.jobs
  pub distinct : IsDistinct pl.jobs

IsDistinct-snoc :
    (us : List Job) (v : Job)
    → IsDistinct us
    → All (λ (u : Job). eqb u.in_path v.in_path ≡ false) us
    → IsDistinct (us ++ (v ∷ []))
IsDistinct-snoc [] v h k = (tt, tt)
IsDistinct-snoc (u ∷ us) v (apart, h) (new, k) = (
  All-append (λ (w : Job). eqb u.in_path w.in_path ≡ false) us (v ∷ []) apart (new, tt),
  IsDistinct-snoc us v h k,
)

clash : true ≢ false
clash e = cc

or_true : (a b : Bool) → b ≡ true → (a || b) ≡ true
or_true true b h = refl
or_true false b h = h

-- A path that was not seen differs from every job's.
unseen :
    (p : FilePath) (seen : List FilePath) (us : List Job)
    → is_seen p seen ≡ false
    → All (λ (u : Job). is_seen u.in_path seen ≡ true) us
    → All (λ (u : Job). eqb u.in_path p ≡ false) us
unseen p seen [] h k = tt
unseen p seen (u ∷ us) h (k, ks) = (new, unseen p seen us h ks)
  where
    new : eqb u.in_path p ≡ false
    new = elim (Bool-cases (eqb u.in_path p)) [
      | inr e ↦ e
      | inl e ↦ absurd (
          clash
            (sym (subst (λ (q : FilePath). is_seen q seen ≡ true) (eqb→eq u.in_path p e) k) ∙ h))
    ]

seen_more :
    (q : FilePath) (seen : List FilePath) (us : List Job)
    → All (λ (u : Job). is_seen u.in_path seen ≡ true) us
    → All (λ (u : Job). is_seen u.in_path (q ∷ seen) ≡ true) us
seen_more q seen [] h = tt
seen_more q seen (u ∷ us) (h, hs) = (or_true (eqb q u.in_path) _ h, seen_more q seen us hs)

-- Noting a path, and adding a job whose path was not noted before.
pub note-IsPlan : (p : FilePath) (pl : Plan) → IsPlan pl → IsPlan (record pl { seen = p ∷ pl.seen })
note-IsPlan p pl h = record { noted = seen_more p pl.seen pl.jobs h.noted; distinct = h.distinct }

pub push_new-IsPlan :
    (u : Job) (pl : Plan)
    → is_seen u.in_path pl.seen ≡ false
    → IsPlan pl
    → IsPlan (record pl { jobs = pl.jobs ++ (u ∷ []); seen = u.in_path ∷ pl.seen })
push_new-IsPlan u pl e h = record {
  noted =
      All-append (λ (v : Job). is_seen v.in_path (u.in_path ∷ pl.seen) ≡ true) pl.jobs (u ∷ [])
        (seen_more u.in_path pl.seen pl.jobs h.noted) (rw (eqb_refl u.in_path), tt);
  distinct = IsDistinct-snoc pl.jobs u h.distinct (unseen u.in_path pl.seen pl.jobs e h.noted);
}

pub push-IsPlan : (u : Job) (pl : Plan) → IsPlan pl → IsPlan (push u pl)
unfolding push
push-IsPlan u pl h = elim (Bool-cases (is_seen u.in_path pl.seen)) [
  | inl e ↦ rw (push, e) h
  | inr e ↦ rw (push, e) (push_new-IsPlan u pl e h)
]

pub record_error-IsPlan :
    (p : FilePath) (e : Error) (pl : Plan) → IsPlan pl → IsPlan (record_error p e pl)
unfolding record_error
record_error-IsPlan p e pl h = record { noted = h.noted; distinct = h.distinct }

pub if-IsPlan : (b : Bool) {x y : Plan} → IsPlan x → IsPlan y → IsPlan (if b then x else y)
if-IsPlan true h k = h
if-IsPlan false h k = k

module _ (S : Os) (C : Crypto) (L : Lz4) (cfg : BatchConfig S.Fs C.PrivateKey) where
  visit-IsPlan :
      (fs : S.Fs) (root : FilePath) (v : Visit) (pl : Plan)
      → IsPlan pl
      → IsPlan (visit S C L cfg fs root v pl)
  unfolding visit
  visit-IsPlan fs root (walk_error p e) pl h = record_error-IsPlan p e pl h
  visit-IsPlan fs root (entry p true info) pl h = h
  visit-IsPlan fs root (entry p false (inl e)) pl h = record_error-IsPlan p e pl h
  visit-IsPlan fs root (entry p false (inr fi)) pl h =
      elim (Bool-cases (accepts S C L cfg fs p fi)) [
        | inr k ↦ rw (visit, k) h
        | inl k ↦ elim (Fallible-cases (S.rel root p)) [
          | inl (e, m) ↦ rw (visit, k, m) (record_error-IsPlan p e pl h)
          | inr (r, m) ↦ rw (visit, k, m) (push-IsPlan _ pl h)
        ]
      ]

  visit_all-IsPlan :
      (fs : S.Fs) (root : FilePath) (vs : List Visit) (pl : Plan)
      → IsPlan pl
      → IsPlan (visit_all S C L cfg fs root vs pl)
  unfolding visit_all
  visit_all-IsPlan fs root [] pl h = h
  visit_all-IsPlan fs root (v ∷ vs) pl h =
      visit_all-IsPlan fs root vs _ (visit-IsPlan fs root v pl h)

  discover_dir-IsPlan :
      (fs : S.Fs) (p : FilePath) (pl : Plan) → IsPlan pl → IsPlan (discover_dir S C L cfg fs p pl)
  unfolding discover_dir
  discover_dir-IsPlan fs p pl h = elim (Bool-cases cfg.recursive) [
    | inr e ↦ rw (discover_dir, e) (record_error-IsPlan p is_a_directory pl h)
    | inl e ↦
        let walked = visit_all-IsPlan fs (S.clean p) (S.walk_dir fs (S.clean p)).0 pl h in
        elim (Option-cases (S.walk_dir fs (S.clean p)).1) [
          | inl k ↦ rw (discover_dir, e, k) walked
          | inr (x, k) ↦ rw (discover_dir, e, k) (record_error-IsPlan p x _ walked)
        ]
  ]

  discover_file-IsPlan :
      (fs : S.Fs) (p : FilePath) (info : FileInfo) (pl : Plan)
      → IsPlan pl
      → IsPlan (discover_file S C L cfg fs p info pl)
  unfolding discover_file
  discover_file-IsPlan fs p info pl h = elim (Bool-cases (accepts S C L cfg fs p info)) [
    | inr e ↦ rw (discover_file, e) h
    | inl e ↦ rw (discover_file, e) (push-IsPlan _ pl h)
  ]

  discover_input-IsPlan :
      (fs : S.Fs) (p : FilePath) (pl : Plan) → IsPlan pl → IsPlan (discover_input S C L cfg fs p pl)
  unfolding discover_input
  discover_input-IsPlan fs p pl h = elim (Fallible-cases (S.stat fs p)) [
    | inl (e, k) ↦ rw (discover_input, k) (record_error-IsPlan p e pl h)
    | inr (info, k) ↦
        rw (discover_input, k)
          (if-IsPlan info.is_dir (discover_dir-IsPlan fs p pl h)
            (discover_file-IsPlan fs p info pl h))
  ]

  discover_from-IsPlan :
      (fs : S.Fs) (ps : List FilePath) (pl : Plan)
      → IsPlan pl
      → IsPlan (discover_from S C L cfg fs ps pl)
  unfolding discover_from
  discover_from-IsPlan fs [] pl h = h
  discover_from-IsPlan fs (p ∷ ps) pl h =
      discover_from-IsPlan fs ps _ (discover_input-IsPlan fs p pl h)

  -- `discover` plans no two jobs with the same input path, however often and in whatever way (given as
  -- a file, or found in a directory) the inputs lead to it.
  pub discover-IsDistinct : (fs : S.Fs) → IsDistinct (discover S C L cfg fs).jobs
  unfolding discover
  discover-IsDistinct fs =
      (discover_from-IsPlan fs cfg.inputs empty_plan
        (record { noted = tt; distinct = tt })).distinct

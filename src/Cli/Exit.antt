-- ===== src/Cli/Exit.antt =====
-- cmd/cloudsync-decrypt/main.go: what the exit codes say.
use cloudsync_decrypt_go.Common.{
  ◌≢◌, Bool-cases, eqb, Result, ok, out_of_fuel, no_output, one_input_only, no_recursive_output,
  bad_version, password_file, no_secret_flag, ℕ, ◌+◌, ◌≡◌, ◌↔◌, refl, sym, ap, ◌∙◌, inl, inr, Bool,
  true, false, Option-cases, List, [], ◌∷◌, none, some, Error, err, ◌==◌, length, length_zero,
  arith, suc, ◌≤◌, if◌then◌else◌, ltb,
}
use cloudsync_decrypt_go.Wire.{Source}
use cloudsync_decrypt_go.Crypto.{Crypto}
use cloudsync_decrypt_go.Lz4.{Lz4}
use cloudsync_decrypt_go.Os.{Os, FilePath}
use cloudsync_decrypt_go.Pem.{X509}
use cloudsync_decrypt_go.Batch.{BatchError, Plan, first_report}
use cloudsync_decrypt_go.Batch.Pool.{Pool, pool, Steps, IsDone}
use cloudsync_decrypt_go.Batch.Pool.Accounts.{report_of_done, Steps-errors}
use cloudsync_decrypt_go.Cli.{
  Flags, exits, batch_exit, main, run_encrypt, run_decrypt, load_encrypt_secrets,
  load_decrypt_secrets, output_refusal, load_password, load_key, some_secret, Run, or_fail,
}
use cloudsync_decrypt_go.Cli.Text.{HasNoDot, split_dot, parse_version}

abbrev exit_code : ℕ → ℕ
exit_code k = if ltb 0 k then 1 else 0

-- The program exits with 0 behind a batch, in either direction and whatever the order of its workers,
-- exactly if the finished report lists no error. In that case the discovery has had no error, and as
-- many jobs have succeeded or were skipped as were discovered.
pub batch_exit_zero_iff :
    (places n : ℕ) (pl : Plan) (p : Pool)
    → Steps places (pool pl.jobs [] (first_report pl)) n p
    → IsDone p
    → ((batch_exit p.report ≡ 0) ↔ (p.report.errors ≡ []))
      × (batch_exit p.report ≡ 0
          → (pl.errs ≡ []) × (p.report.succeeded + p.report.skipped ≡ length pl.jobs))
unfolding batch_exit first_report
batch_exit_zero_iff places n pl p ss h =
    let (total, listed, _) = report_of_done places n pl p ss h in
    let kept : length pl.errs ≤ length p.report.errors = Steps-errors ss in
    (
      (
        λ z. length_zero p.report.errors (listed ∙ none_failed p.report.failed z),
        λ e. exit_zero p.report.failed (sym listed ∙ ap (λ (es : List BatchError). length es) e),
      ),
      λ z.
          let k = none_failed p.report.failed z in (length_zero pl.errs (omega arith), omega arith),
    )
  where
    none_failed : (k : ℕ) → exit_code k ≡ 0 → k ≡ 0
    none_failed k z = ground arith

    exit_zero : (k : ℕ) → k ≡ 0 → exit_code k ≡ 0
    exit_zero k z = rw z

if_true {ℓ} : {A : Type ℓ} (b : Bool) (x y : A) → b ≡ true → (if b then x else y) ≡ x
if_true true x y h = refl
if_true false x y h = cc

if_false {ℓ} : {A : Type ℓ} (b : Bool) (x y : A) → b ≡ false → (if b then x else y) ≡ y
if_false true x y h = cc
if_false false x y h = refl

suc_ne : (n : ℕ) → (suc n == 0) ≡ false
suc_ne n = ground arith

eqb_nil : (xs : List ℕ) → xs ≢ [] → eqb xs [] ≡ false
eqb_nil [] h = absurd (h refl)
eqb_nil (x ∷ xs) h = refl

-- What the usage of the program rules out for the flags that say where the output goes.
pub data OutputMisuse (f : Flags) (inputs : List FilePath) : Type 0 where
  nowhere : f.out_file ≡ [] → f.out_dir ≡ [] → OutputMisuse f inputs
  many_into_one : f.out_file ≢ [] → length inputs ≢ 1 → OutputMisuse f inputs
  walk_into_one : f.out_file ≢ [] → f.recursive ≡ true → OutputMisuse f inputs

OutputMisuse-refused :
    (f : Flags) (inputs : List FilePath)
    → OutputMisuse f inputs
    → (e : Error) × (output_refusal f inputs ≡ some e)
unfolding output_refusal
OutputMisuse-refused f inputs (nowhere o d) = (no_output, rw (o, d))
OutputMisuse-refused f inputs (many_into_one o n) = (one_input_only, rw (eqb_nil f.out_file o, ne))
  where
    ne : (length inputs == 1) ≡ false
    ne = ground (arith, n)
OutputMisuse-refused f inputs (walk_into_one o r) = elim (Bool-cases (length inputs == 1)) [
  | inl e ↦ (no_recursive_output, rw (eqb_nil f.out_file o, e, r))
  | inr e ↦ (one_input_only, rw (eqb_nil f.out_file o, e))
]

split_dot-none : (s : List ℕ) → HasNoDot s → split_dot s ≡ none
unfolding split_dot
split_dot-none [] h = refl
split_dot-none (c ∷ cs) (h, hs) = rw (ne, split_dot-none cs hs)
  where
    ne : (c == 46) ≡ false
    ne = ground (arith, h)

parse_version_dotless : (s : List ℕ) → HasNoDot s → parse_version s ≡ err bad_version
unfolding parse_version
parse_version_dotless s h = rw (parse_version, split_dot-none s h)

module _ (S : Os) where
  open S use {Fs, read_file}

  -- What rules a command line out that does not inspect, whatever is in its files: the output flags;
  -- no password and no key for the direction; a password file that cannot be read; to encrypt, a
  -- version without a dot.
  pub data Misuse (fs : Fs) (f : Flags) : List FilePath → Type 0 where
    no_input : Misuse fs f []
    output : {inputs : List FilePath} → OutputMisuse f inputs → Misuse fs f inputs
    no_encrypt_secret :
        {inputs : List FilePath}
        → f.encrypt_mode ≡ true
        → f.pw_file ≡ []
        → f.pw_inline ≡ []
        → f.pub_pem ≡ []
        → Misuse fs f inputs
    no_decrypt_secret :
        {inputs : List FilePath}
        → f.encrypt_mode ≡ false
        → f.pw_file ≡ []
        → f.pw_inline ≡ []
        → f.pk_pem ≡ []
        → Misuse fs f inputs
    unreadable :
        {inputs : List FilePath} {e : Error}
        → f.pw_file ≢ []
        → read_file fs f.pw_file ≡ inl e
        → Misuse fs f inputs
    dotless :
        {inputs : List FilePath} → f.encrypt_mode ≡ true → HasNoDot f.version → Misuse fs f inputs

  no_password :
      (fs : Fs) (f : Flags) → f.pw_file ≡ [] → f.pw_inline ≡ [] → load_password S fs f ≡ ok none
  unfolding load_password
  no_password fs f a b = rw (a, b)

  unreadable_password :
      (fs : Fs) (f : Flags) (e : Error)
      → f.pw_file ≢ []
      → read_file fs f.pw_file ≡ inl e
      → load_password S fs f ≡ err (password_file e)
  unfolding load_password
  unreadable_password fs f e a b = rw (eqb_nil f.pw_file a, b)

  module _ (C : Crypto) (L : Lz4) (crand : Source) (X : X509 C.PrivateKey C.PublicKey) where
    run_encrypt_refused :
        (fs : Fs) (f : Flags) (inputs : List FilePath) (e : Error)
        → load_encrypt_secrets S C L crand X fs f ≡ err e
        → run_encrypt S C L crand X fs f inputs ≡ exits fs 2
    unfolding run_encrypt
    run_encrypt_refused fs f inputs e h = rw h

    run_decrypt_refused :
        (fs : Fs) (f : Flags) (inputs : List FilePath) (e : Error)
        → load_decrypt_secrets S C L crand X fs f ≡ err e
        → run_decrypt S C L crand X fs f inputs ≡ exits fs 2
    unfolding run_decrypt
    run_decrypt_refused fs f inputs e h = rw h

    encrypt_failed :
        (fs : Fs) (f : Flags) (e : Error)
        → load_password S fs f ≡ err e
        → load_encrypt_secrets S C L crand X fs f ≡ err e
    unfolding load_encrypt_secrets
    encrypt_failed fs f e h = rw h

    decrypt_failed :
        (fs : Fs) (f : Flags) (e : Error)
        → load_password S fs f ≡ err e
        → load_decrypt_secrets S C L crand X fs f ≡ err e
    unfolding load_decrypt_secrets
    decrypt_failed fs f e h = rw h

    secretless_encrypt :
        (fs : Fs) (f : Flags)
        → load_password S fs f ≡ ok none
        → f.pub_pem ≡ []
        → load_encrypt_secrets S C L crand X fs f ≡ err no_secret_flag
    unfolding load_encrypt_secrets load_key some_secret
    secretless_encrypt fs f h k = rw (h, k)

    secretless_decrypt :
        (fs : Fs) (f : Flags)
        → load_password S fs f ≡ ok none
        → f.pk_pem ≡ []
        → load_decrypt_secrets S C L crand X fs f ≡ err no_secret_flag
    unfolding load_decrypt_secrets load_key some_secret
    secretless_decrypt fs f h k = rw (h, k)

    dotless_refused :
        (fs : Fs) (f : Flags) (inputs : List FilePath)
        → HasNoDot f.version
        → run_encrypt S C L crand X fs f inputs ≡ exits fs 2
    unfolding run_encrypt
    dotless_refused fs f inputs h =
        rw (parse_version_dotless f.version h) (always (load_encrypt_secrets S C L crand X fs f))
      where
        always :
            {A : Type 0} (r : Result A)
            → ◌≡◌ {A = Run Fs} (or_fail fs r (λ x. exits fs 2)) (exits fs 2)
        always (ok a) = refl
        always (err e) = refl
        always out_of_fuel = refl

    -- The two directions behind the check of the output flags.
    run_refused :
        (fs : Fs) (f : Flags) (inputs : List FilePath)
        → output_refusal f inputs ≡ none
        → inputs ≢ []
        → Misuse fs f inputs
        → (if f.encrypt_mode
            then run_encrypt S C L crand X fs f inputs
            else run_decrypt S C L crand X fs f inputs)
          ≡ exits fs 2
    run_refused fs f _ k some_input no_input = absurd (some_input refl)
    run_refused fs f inputs k some_input (output m) =
        let (e, refused) = OutputMisuse-refused f inputs m in cc
    run_refused fs f inputs k some_input (no_encrypt_secret m a b c) =
        if_true f.encrypt_mode _ _ m
        ∙ run_encrypt_refused fs f inputs no_secret_flag
            (secretless_encrypt fs f (no_password fs f a b) c)
    run_refused fs f inputs k some_input (no_decrypt_secret m a b c) =
        if_false f.encrypt_mode _ _ m
        ∙ run_decrypt_refused fs f inputs no_secret_flag
            (secretless_decrypt fs f (no_password fs f a b) c)
    run_refused fs f inputs k some_input (unreadable {e = e} a b) =
        let h = unreadable_password fs f e a b in
        elim (Bool-cases f.encrypt_mode) [
          | inl m ↦
              if_true f.encrypt_mode _ _ m
              ∙ run_encrypt_refused fs f inputs _ (encrypt_failed fs f _ h)
          | inr m ↦
              if_false f.encrypt_mode _ _ m
              ∙ run_decrypt_refused fs f inputs _ (decrypt_failed fs f _ h)
        ]
    run_refused fs f inputs k some_input (dotless m h) =
        if_true f.encrypt_mode _ _ m ∙ dotless_refused fs f inputs h

    -- Without `-inspect`, a command line leaves every file as it is and exits with 2 if it has no
    -- input; names neither an output file nor an output directory; names an output file and not one
    -- input, or an output file and `-r`; gives no password and no key for its direction; names a
    -- password file that cannot be read; or encrypts with a version that has no dot.
    pub main_refuses :
        (fs : Fs) (f : Flags) (inputs : List FilePath)
        → f.inspect_mode ≡ false
        → Misuse fs f inputs
        → main S C L crand X fs f inputs ≡ exits fs 2
    unfolding main
    main_refuses fs f [] shown why = refl
    main_refuses fs f (p ∷ ps) shown why =
        if_false (suc (length ps) == 0) _ _ (suc_ne (length ps))
        ∙ if_false f.inspect_mode _ _ shown
        ∙ elim (Option-cases (output_refusal f (p ∷ ps))) [
          | inr (x, k) ↦ rw k
          | inl k ↦ rw k (run_refused fs f (p ∷ ps) k (λ g. cc) why)
        ]

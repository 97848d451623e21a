-- ===== src/Cli.antt =====
-- cmd/cloudsync-decrypt/main.go: the checks of the command line, the secrets, and the runs in both
-- directions with their exit codes. `Flags` are the flags as Go's flag package leaves them. What is
-- printed, the log hook and `-inspect`'s JSON are left out; a batch is the report at once or the pool that its workers
-- run (Batch/Pool), and its exit code is that of the report at the end.
pub mod Text
pub mod Units
pub mod Exit
pub mod Numeral
pub mod Version
use cloudsync_decrypt_go.Common.{
  ℕ, zero, suc, ◌+◌, ◌==◌, Bool, true, false, not, ◌&&◌, List, [], ◌∷◌, Option, none, some, Error,
  no_output, one_input_only, no_recursive_output, no_secret_flag, password_file, private_key_file,
  public_key_file, Result, ok, err, out_of_fuel, ◌>>=◌, call, map_error, ◌⊎◌, inl, inr, eqb,
  if◌then◌else◌, length, ltb,
}
use cloudsync_decrypt_go.Common.Signed.{ℤ}
use cloudsync_decrypt_go.Wire.{Source}
use cloudsync_decrypt_go.Crypto.{Crypto}
use cloudsync_decrypt_go.Lz4.{Lz4}
use cloudsync_decrypt_go.Os.{Os, FilePath}
use cloudsync_decrypt_go.Pem.{X509, load_rsa_private_key, load_rsa_public_key}
use cloudsync_decrypt_go.Recover.{Options}
use cloudsync_decrypt_go.Session.{EncryptOptions}
use cloudsync_decrypt_go.File.{decrypt_file, encrypt_file}
use cloudsync_decrypt_go.Batch.{BatchConfig, BatchReport, first_report}
use cloudsync_decrypt_go.Batch.Pool.{Pool, pool, batch_start}
use cloudsync_decrypt_go.Cli.Text.{trim_eol, parse_version}
use cloudsync_decrypt_go.Cli.Units.{discover_encrypt_units}

pub record Flags : Type 0 where
  pub encrypt_mode : Bool
  pub inspect_mode : Bool
  pub pw_file : FilePath
  pub pw_inline : List ℕ
  pub pk_pem : FilePath
  pub pk_pass : List ℕ
  pub pub_pem : FilePath
  pub out_dir : FilePath
  pub out_file : FilePath
  pub recursive : Bool
  pub jobs : ℤ
  pub skip_exist : Bool
  pub keep_mtime : Bool
  pub version : List ℕ
  pub compress : Bool

-- What the program comes to: an exit code with the files as they are left, or a batch.
pub data Run (Fs : Type 0) : Type 0 where
  exits : Fs → ℕ → Run Fs
  batches : BatchReport ⊎ Pool → Run Fs

-- Behind a step that may call `fail`, which exits with 2.
abbrev pub or_fail : {Fs A : Type 0} → Fs → Result A → (A → Run Fs) → Run Fs
or_fail fs (ok a) k = k a
or_fail fs (err e) k = exits fs 2
or_fail fs out_of_fuel k = exits fs 2

-- The exit code behind `printReport`.
unfoldable pub batch_exit : BatchReport → ℕ
batch_exit r = if ltb 0 r.failed then 1 else 0

-- The exit code behind `DecryptFile` or `EncryptFile`.
abbrev pub exit_of : Result (Unit {0}) → ℕ
exit_of (ok u) = 0
exit_of (err e) = 1
exit_of out_of_fuel = 1

-- The common checks of the output flags.
unfoldable pub output_refusal : Flags → List FilePath → Option Error
output_refusal f inputs =
    if eqb f.out_file [] && eqb f.out_dir []
    then some no_output
    else if not (eqb f.out_file []) && not (length inputs == 1)
    then some one_input_only
    else if not (eqb f.out_file []) && f.recursive
    then some no_recursive_output
    else none

abbrev pub first_input : List FilePath → FilePath
first_input [] = []
first_input (p ∷ ps) = p

module _ (S : Os) where
  open S use {Fs, read_file, base}

  unfoldable pub load_password : Fs → Flags → Result (Option (List ℕ))
  load_password fs f =
      if not (eqb f.pw_file [])
      then map_error password_file (call (read_file fs f.pw_file)) >>= (λ b. ok (some (trim_eol b)))
      else if not (eqb f.pw_inline [])
      then ok (some f.pw_inline)
      else ok none

  -- A key from a file, if a file is named.
  unfoldable pub load_key : {K : Type 0} → FilePath → (Error → Error) → Result K → Result (Option K)
  load_key path wrap loaded =
      if eqb path [] then ok none else (map_error wrap loaded >>= λ k. ok (some k))

  -- At least one of the two secrets.
  unfoldable pub some_secret :
      {K : Type 0} → Option (List ℕ) → Option K → Result (Option (List ℕ) × Option K)
  some_secret none none = err no_secret_flag
  some_secret none (some k) = ok (none, some k)
  some_secret (some w) k = ok (some w, k)

  module _ (C : Crypto) (L : Lz4) (crand : Source) (X : X509 C.PrivateKey C.PublicKey) where
    open C use {PrivateKey, PublicKey}

    unfoldable pub load_decrypt_secrets : Fs → Flags → Result (Option (List ℕ) × Option PrivateKey)
    load_decrypt_secrets fs f = do
      pw ← load_password fs f
      key ← load_key f.pk_pem private_key_file (load_rsa_private_key X S fs f.pk_pem f.pk_pass)
      some_secret pw key

    unfoldable pub load_encrypt_secrets : Fs → Flags → Result (Option (List ℕ) × Option PublicKey)
    load_encrypt_secrets fs f = do
      pw ← load_password fs f
      key ← load_key f.pub_pem public_key_file (load_rsa_public_key X S fs f.pub_pem)
      some_secret pw key

    abbrev pub batch_config :
        Flags → List FilePath → Option (List ℕ) × Option PrivateKey → BatchConfig Fs PrivateKey
    batch_config f inputs (pw, key) = record {
      inputs = inputs;
      output_dir = f.out_dir;
      password = pw;
      private_key = key;
      recursive = f.recursive;
      concurrency = f.jobs;
      skip_existing = f.skip_exist;
      preserve_time = f.keep_mtime;
      filter = none;
    }

    unfoldable pub run_decrypt : Fs → Flags → List FilePath → Run Fs
    run_decrypt fs f inputs =
        or_fail fs (load_decrypt_secrets fs f) (λ (secrets : Option (List ℕ) × Option PrivateKey).
          if not (eqb f.out_file [])
          then (let asked : Options PrivateKey = record {
            password = secrets.0;
            private_key = secrets.1;
          } in
              let r = decrypt_file S C L (first_input inputs) f.out_file asked fs in
              exits r.0 (exit_of r.1))
          else batches (batch_start S C L (batch_config f inputs secrets) fs))

    -- A nil password and an empty one are the same to the library when it encrypts.
    abbrev pub bytes_of : Option (List ℕ) → List ℕ
    bytes_of none = []
    bytes_of (some w) = w

    unfoldable pub build_opts :
        Flags → Option (List ℕ) × Option PublicKey → ℤ × ℤ → FilePath → EncryptOptions PublicKey
    build_opts f (pw, key) (major, minor) in_path = record {
      password = bytes_of pw;
      public_key = key;
      opt_major = major;
      opt_minor = minor;
      filename = base in_path;
      compress = some f.compress;
      opt_rand = none;
    }

    -- `runEncryptBatch` before its first worker starts.
    unfoldable pub encrypt_batch_start : Fs → Flags → List FilePath → Pool
    encrypt_batch_start fs f inputs =
        let pl = discover_encrypt_units S f.out_dir f.recursive fs inputs in
        pool pl.jobs [] (first_report pl)

    unfoldable pub run_encrypt : Fs → Flags → List FilePath → Run Fs
    run_encrypt fs f inputs =
        or_fail fs (load_encrypt_secrets fs f) (λ (secrets : Option (List ℕ) × Option PublicKey).
          or_fail fs (parse_version f.version) (λ (v : ℤ × ℤ).
            if not (eqb f.out_file [])
            then (let r =
                  encrypt_file S C L crand (first_input inputs) f.out_file
                    (build_opts f secrets v (first_input inputs)) fs in
                exits r.0 (exit_of r.1))
            else batches (inr (encrypt_batch_start fs f inputs))))

    -- `main` behind the parsing of the flags.
    unfoldable pub main : Fs → Flags → List FilePath → Run Fs
    main fs f inputs =
        if length inputs == 0
        then exits fs 2
        else if f.inspect_mode
        then exits fs 0
        else elim (output_refusal f inputs) [
          | some e ↦ exits fs 2
          | none ↦ if f.encrypt_mode then run_encrypt fs f inputs else run_decrypt fs f inputs
        ]

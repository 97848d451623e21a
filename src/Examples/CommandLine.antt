-- ===== src/Examples/CommandLine.antt =====
-- The command line at concrete inputs.
use cloudsync_decrypt_go.Common.{
  ℕ, ◌+◌, ◌^◌, ◌≤◌, ◌<◌, ◌≡◌, ◌↔◌, ◌⊎◌, ◌++◌, refl, true, false, List, [], ◌∷◌, none, some, ok,
  codes, arith, All,
}
use cloudsync_decrypt_go.Common.Signed.{pos}
use cloudsync_decrypt_go.Batch.Discover.{IsDistinct}
use cloudsync_decrypt_go.Batch.Pool.{pool}
use cloudsync_decrypt_go.Cli.{Flags, exits, main, batch_exit}
use cloudsync_decrypt_go.Cli.Text.{
  human_scale, human_scale_lem, parse_version, split_dot, parse_int, parse_natural, parse_digits,
  in_int64, check_major, trim_eol, trim_eol_lem, IsEol, EndsInText,
}
use cloudsync_decrypt_go.Cli.Version.{IsVersion, parse_version_iff}
use cloudsync_decrypt_go.Cli.Units.{discover_encrypt_units, discover_encrypt_units-IsDistinct}
use cloudsync_decrypt_go.Cli.Exit.{batch_exit_zero_iff, main_refuses, output, many_into_one}
use cloudsync_decrypt_go.Examples.Toy.{toy_crypto, toy_lz4, toy_rand}
use cloudsync_decrypt_go.Examples.Disk.{toy_os}
use cloudsync_decrypt_go.Examples.Files.{tree}
use cloudsync_decrypt_go.Examples.Pems.{toy_x509}
use cloudsync_decrypt_go.Examples.Batches.{ended, plan}

human_scale_lem_example :
    ((3145728 < 1024) × (human_scale 3145728 ≡ ok none))
    ⊎ ((e : ℕ) × (e < 6)
        × (human_scale 3145728 ≡ ok (some (1024 ^ (e + 1), e)))
        × (1024 ^ (e + 1) ≤ 3145728)
        × (3145728 < 1024 ^ (e + 2)))
human_scale_lem_example = human_scale_lem 3145728 (omega arith)

version_one : parse_version (codes "1.0") ≡ ok (pos 1, pos 0)
unfolding parse_version split_dot parse_int parse_natural parse_digits in_int64 check_major codes
version_one = refl

parse_version_iff_example :
    (parse_version (codes "+03.12") ≡ ok (pos 3, pos 12))
    ↔ IsVersion (codes "+03.12") (pos 3) (pos 12)
parse_version_iff_example = parse_version_iff (codes "+03.12") (pos 3) (pos 12)

-- A sign and a leading zero are accepted.
signed-IsVersion : IsVersion (codes "+03.12") (pos 3) (pos 12)
unfolding parse_version split_dot parse_int parse_natural parse_digits in_int64 check_major codes
signed-IsVersion = (parse_version_iff (codes "+03.12") (pos 3) (pos 12)).0 refl

trim_eol_lem_example :
    (cut : List ℕ) × All IsEol cut
    × (115 ∷ 13 ∷ 10 ∷ [] ≡ trim_eol (115 ∷ 13 ∷ 10 ∷ []) ++ cut)
    × EndsInText (trim_eol (115 ∷ 13 ∷ 10 ∷ []))
trim_eol_lem_example = trim_eol_lem (115 ∷ 13 ∷ 10 ∷ [])

discover_encrypt_units-IsDistinct_example :
    IsDistinct (discover_encrypt_units toy_os (5 ∷ []) false tree ((1 ∷ []) ∷ (1 ∷ []) ∷ [])).jobs
discover_encrypt_units-IsDistinct_example =
    discover_encrypt_units-IsDistinct toy_os (5 ∷ []) false tree ((1 ∷ []) ∷ (1 ∷ []) ∷ [])

batch_exit_zero_iff_example :
    ((batch_exit ended.0 ≡ 0) ↔ (ended.0.errors ≡ []))
    × (batch_exit ended.0 ≡ 0 → (plan.errs ≡ []) × (ended.0.succeeded + ended.0.skipped ≡ 1))
batch_exit_zero_iff_example = batch_exit_zero_iff 1 6 plan (pool [] [] ended.0) ended.1 (refl, refl)

-- `-o` names one file for two inputs.
abbrev one_target : Flags
one_target = record {
  encrypt_mode = false;
  inspect_mode = false;
  pw_file = [];
  pw_inline = 7 ∷ [];
  pk_pem = [];
  pk_pass = [];
  pub_pem = [];
  out_dir = [];
  out_file = 9 ∷ [];
  recursive = false;
  jobs = pos 0;
  skip_exist = false;
  keep_mtime = true;
  version = codes "3.1";
  compress = true;
}

main_refuses_example :
    main toy_os toy_crypto toy_lz4 toy_rand toy_x509 tree one_target ((1 ∷ []) ∷ (2 ∷ []) ∷ [])
    ≡ exits tree 2
main_refuses_example =
    main_refuses toy_os toy_crypto toy_lz4 toy_rand toy_x509 tree one_target
      ((1 ∷ []) ∷ (2 ∷ []) ∷ []) refl (output (many_into_one (λ h. cc) (λ h. omega arith)))

-- ===== src/Common/Results.antt =====
-- Go's `error` values as data, and the pair (value, error) as a result.
use mathlib.Core.Path.{◌≡◌, refl, subst}
use mathlib.Core.Logic.{◌≢◌, ◌⊎◌, inl, inr}
use mathlib.Core.Bool.{Bool, true, false}
use mathlib.Core.List.{List}
use Prim.Native.Nat.{ℕ}
use cloudsync_decrypt_go.Common.Tests.{if◌then◌else◌}

-- One constructor for each `errors.New`, `fmt.Errorf` and sentinel that the modelled code returns
-- (an error wrapped by `%w` is an argument; the message text is not kept), and `external` for
-- errors that a reader, a writer or another package hands in. `nil_pointer` is the panic of a nil
-- dereference.
pub data Error : Type 0 where
  eof unexpected_eof closed_pipe : Error
  external : ℕ → Error
  dict_key_with_no_value : Error
  unknown_tag : ℕ → Error
  value_exceeds_u16 : ℕ → Error
  negative_integer : Error
  read_magic : Error → Error
  bad_magic : Error
  read_magic_checksum : Error → Error
  magic_checksum_mismatch : Error
  not_aes_aligned : ℕ → Error
  pad_out_of_range : ℕ → Error
  pad_inconsistent : Error
  cannot_decode_kind : Error
  bad_base64 bad_hex : Error
  in_field : List ℕ → Error → Error
  top_level_not_dict : Error
  missing_type : Error
  unknown_type : List ℕ → Error
  bad_data_dict missing_payload : Error
  no_data_blocks : Error
  plaintext_md5_mismatch : List ℕ → List ℕ → Error
  encrypt_mode compress_mode : Error
  hash_mismatch : List ℕ → Error
  no_recovery_secret : Error
  key1_not_aligned : ℕ → Error
  key1_padding rsa_failed session_not_hex final_padding : Error → Error
  no_secret bad_major : Error
  write_on_closed : Error
  random_session_key : Error → Error
  no_output_dir no_batch_secret is_a_directory : Error
  no_pem_block passphrase_required pkcs8_not_rsa pkix_not_rsa : Error
  bad_pem_passphrase : Error → Error
  unsupported_block : List ℕ → Error
  bad_version bad_version_major bad_integer : Error
  no_output one_input_only no_recursive_output no_secret_flag : Error
  password_file private_key_file public_key_file : Error → Error
  version_major version_minor : Error → Error
  nil_pointer : Error

-- Go's `err == io.EOF`.
abbrev pub is_eof : Error → Bool
is_eof eof = true
is_eof _ = false

-- `out_of_fuel` is no Go value: a loop of the model ran out of its fuel.
pub data Result {ℓ} (A : Type ℓ) : Type ℓ where
  ok : A → Result A
  err : Error → Result A
  out_of_fuel : Result A

infixl 5 ◌>>=◌
-- What follows a step: Go's `if err != nil { return err }` behind it.
abbrev pub ◌>>=◌ {ℓ ℓ'} : {A : Type ℓ} {B : Type ℓ'} → Result A → (A → Result B) → Result B
out_of_fuel >>= next = out_of_fuel
err e >>= next = err e
ok x >>= next = next x

-- The same behind a step that returns nothing.
infixl 5 ◌>>◌
abbrev pub ◌>>◌ : {B : Type 0} → Result (Unit {0}) → Result B → Result B
◌>>◌ step k = step >>= (λ u. k)

abbrev pub map_error {ℓ} : {A : Type ℓ} → (Error → Error) → Result A → Result A
map_error g (ok a) = ok a
map_error g (err e) = err (g e)
map_error g out_of_fuel = out_of_fuel

-- What code outside the repository returns: an error or a value.
abbrev pub Fallible {ℓ} : Type ℓ → Type ℓ
Fallible A = Error ⊎ A

abbrev pub call {ℓ} : {A : Type ℓ} → Fallible A → Result A
call (inl e) = err e
call (inr a) = ok a

-- An error or a value.
pub Fallible-cases {ℓ} :
    {A : Type ℓ} (r : Fallible A) → ((e : Error) × (r ≡ inl e)) ⊎ ((a : A) × (r ≡ inr a))
Fallible-cases (inl e) = inl (e, refl)
Fallible-cases (inr a) = inr (a, refl)

pub err_ne {ℓ} : {A : Type ℓ} {e : Error} {a : A} → ◌≢◌ {A = Result A} (err e) (ok a)
err_ne h = cc

pub out_of_fuel_ne {ℓ} : {A : Type ℓ} {a : A} → ◌≢◌ {A = Result A} out_of_fuel (ok a)
out_of_fuel_ne h = cc

pub ok_injective {ℓ} : {A : Type ℓ} {x y : A} → ok x ≡ ok y → x ≡ y
ok_injective e = cc

-- The step in front of a result, where there is one.
pub ok_behind {ℓ ℓ'} :
    {A : Type ℓ} {B : Type ℓ'} (r : Result A) {next : A → Result B} {y : B}
    → r >>= next ≡ ok y
    → (x : A) × (r ≡ ok x) × (next x ≡ ok y)
ok_behind out_of_fuel e = cc
ok_behind (err e') e = cc
ok_behind (ok x) e = (x, refl, e)

pub map_error_ok {ℓ} :
    {A : Type ℓ} (g : Error → Error) (r : Result A) {x : A} → map_error g r ≡ ok x → r ≡ ok x
map_error_ok g (ok a) e = e
map_error_ok g (err e') e = cc
map_error_ok g out_of_fuel e = cc

-- A postcondition: the code returned, and `P` holds of the value if there is one.
pub data Post {ℓ κ} {A : Type ℓ} (P : A → Type κ) : Result A → Type (ℓ ⊔ κ) where
  value : {a : A} → P a → Post P (ok a)
  failure : {e : Error} → Post P (err e)

module _ {ℓ κ} {A : Type ℓ} {P : A → Type κ} where
  pub Post-ok : {r : Result A} {a : A} → Post P r → r ≡ ok a → P a
  Post-ok (value h) e = subst P (cc) h
  Post-ok failure e = cc

  pub Post-ne : {r : Result A} → Post P r → r ≢ out_of_fuel
  Post-ne (value h) = λ e. cc
  Post-ne failure = λ e. cc

  pub Post-if : (b : Bool) {x y : Result A} → Post P x → Post P y → Post P (if b then x else y)
  Post-if true hx hy = hx
  Post-if false hx hy = hy

  pub Post-map {κ'} :
      {Q : A → Type κ'} {r : Result A} → Post P r → ((a : A) → P a → Post Q (ok a)) → Post Q r
  Post-map (value {a} h) k = k a h
  Post-map failure k = failure

  pub Post-bind {ℓ' κ'} :
      {B : Type ℓ'} {Q : B → Type κ'} {r : Result A} {f : A → Result B}
      → Post P r
      → ((a : A) → P a → Post Q (f a))
      → Post Q (r >>= f)
  Post-bind (value {a} h) k = k a h
  Post-bind failure k = failure

-- ===== src/Pem.antt =====
-- csenc/file.go and csenc/encrypt.go: loading RSA keys from PEM files. The packages encoding/pem and
-- crypto/x509 are an interface.
use cloudsync_decrypt_go.Common.{
  ℕ, ◌≡◌, ◌≢◌, ◌↔◌, ◌⊎◌, refl, true, eqb_refl, ap, ◌∙◌, inl, inr, Bool, false, Bool-cases, List, [],
  ◌∷◌, Option, none, some, Error, no_pem_block, passphrase_required, pkcs8_not_rsa, pkix_not_rsa,
  bad_pem_passphrase, unsupported_block, Result, ok, err, ok_injective, ok_behind, map_error_ok,
  err_ne, ◌>>=◌, call, map_error, Fallible, eqb, eqb→eq, if◌then◌else◌, codes,
}
use cloudsync_decrypt_go.Os.{Os, FilePath}

pub record X509 (PrivateKey PublicKey : Type 0) : Type 1 where
  -- `pem.Block`, its type and its bytes.
  pub PemBlock : Type 0
  pub block_type : PemBlock → List ℕ
  pub block_bytes : PemBlock → List ℕ
  pub pem_decode : List ℕ → Option PemBlock
  pub is_encrypted_pem_block : PemBlock → Bool
  pub decrypt_pem_block : PemBlock → List ℕ → Fallible (List ℕ)
  pub parse_pkcs1_private_key : List ℕ → Fallible PrivateKey
  -- `none` is a key that is not one of RSA.
  pub parse_pkcs8_private_key : List ℕ → Fallible (Option PrivateKey)
  pub parse_pkix_public_key : List ℕ → Fallible (Option PublicKey)
  pub parse_pkcs1_public_key : List ℕ → Fallible PublicKey

abbrev pub some_or : {A : Type 0} → Error → Option A → Result A
some_or e (some a) = ok a
some_or e none = err e

module _ {PrivateKey PublicKey : Type 0} (X : X509 PrivateKey PublicKey) where
  open X use {
    PemBlock, block_type, block_bytes, pem_decode, is_encrypted_pem_block, decrypt_pem_block,
    parse_pkcs1_private_key, parse_pkcs8_private_key, parse_pkix_public_key, parse_pkcs1_public_key,
  }

  unfoldable pub private_der : PemBlock → List ℕ → Result (List ℕ)
  private_der b passphrase =
      if is_encrypted_pem_block b
      then (if eqb passphrase []
          then err passphrase_required
          else map_error bad_pem_passphrase (call (decrypt_pem_block b passphrase)))
      else ok (block_bytes b)

  unfoldable pub parse_private_key : PemBlock → List ℕ → Result PrivateKey
  parse_private_key b der =
      if eqb (block_type b) (codes "RSA PRIVATE KEY")
      then call (parse_pkcs1_private_key der)
      else if eqb (block_type b) (codes "PRIVATE KEY")
      then (call (parse_pkcs8_private_key der) >>= some_or pkcs8_not_rsa)
      else err (unsupported_block (block_type b))

  unfoldable pub load_rsa_private_key : (S : Os) → S.Fs → FilePath → List ℕ → Result PrivateKey
  load_rsa_private_key S fs path passphrase = do
    raw ← call (S.read_file fs path)
    b ← some_or no_pem_block (pem_decode raw)
    der ← private_der b passphrase
    parse_private_key b der

  unfoldable pub parse_public_key : PemBlock → Result PublicKey
  parse_public_key b =
      if eqb (block_type b) (codes "PUBLIC KEY")
      then (call (parse_pkix_public_key (block_bytes b)) >>= some_or pkix_not_rsa)
      else if eqb (block_type b) (codes "RSA PUBLIC KEY")
      then call (parse_pkcs1_public_key (block_bytes b))
      else err (unsupported_block (block_type b))

  unfoldable pub parse_rsa_public_key_pem : List ℕ → Result PublicKey
  parse_rsa_public_key_pem raw = do b ← some_or no_pem_block (pem_decode raw); parse_public_key b

  unfoldable pub load_rsa_public_key : (S : Os) → S.Fs → FilePath → Result PublicKey
  load_rsa_public_key S fs path = do raw ← call (S.read_file fs path); parse_rsa_public_key_pem raw

  -- How a private key can come out of a file: the bytes are those of a block that is not encrypted,
  -- or the block's under a passphrase, and they are parsed as the type of the block says.
  pub record LoadedFrom (S : Os) (fs : S.Fs) (path : FilePath) (passphrase : List ℕ)
      (k : PrivateKey) : Type 0 where
    pub raw : List ℕ
    pub block : PemBlock
    pub der : List ℕ
    pub read : S.read_file fs path ≡ inr raw
    pub decoded : pem_decode raw ≡ some block
    pub in_clear :
        ((is_encrypted_pem_block block ≡ false) × (block_bytes block ≡ der))
        ⊎ ((is_encrypted_pem_block block ≡ true)
            × (passphrase ≢ [])
            × (decrypt_pem_block block passphrase ≡ inr der))
    pub parsed :
        ((block_type block ≡ codes "RSA PRIVATE KEY") × (parse_pkcs1_private_key der ≡ inr k))
        ⊎ ((block_type block ≡ codes "PRIVATE KEY") × (parse_pkcs8_private_key der ≡ inr (some k)))

  call_ok : {A : Type 0} (r : Fallible A) {a : A} → call r ≡ ok a → r ≡ inr a
  call_ok (inl e) h = cc
  call_ok (inr a) h = cc

  some_or_ok : {A : Type 0} (e : Error) (r : Option A) {a : A} → some_or e r ≡ ok a → r ≡ some a
  some_or_ok e none h = cc
  some_or_ok e (some a) h = cc

  private_der_ok :
      (b : PemBlock) (passphrase der : List ℕ)
      → private_der b passphrase ≡ ok der
      → ((is_encrypted_pem_block b ≡ false) × (block_bytes b ≡ der))
        ⊎ ((is_encrypted_pem_block b ≡ true)
            × (passphrase ≢ [])
            × (decrypt_pem_block b passphrase ≡ inr der))
  unfolding private_der
  private_der_ok b passphrase der h = elim (Bool-cases (is_encrypted_pem_block b)) [
    | inr e ↦ inl (e, ok_injective (rw (private_der, e) at h))
    | inl e ↦
        let (given, opened) = asked passphrase (rw (private_der, e) at h) in inr (e, given, opened)
  ]
    where
      asked :
          (w : List ℕ)
          → (if eqb w []
              then err passphrase_required
              else map_error bad_pem_passphrase (call (decrypt_pem_block b w)))
            ≡ ok der
          → (w ≢ []) × (decrypt_pem_block b w ≡ inr der)
      asked [] k = absurd (err_ne k)
      asked (x ∷ w) k = (λ g. cc, call_ok _ (map_error_ok bad_pem_passphrase _ k))

  parse_private_key_ok :
      (b : PemBlock) (der : List ℕ) (k : PrivateKey)
      → parse_private_key b der ≡ ok k
      → ((block_type b ≡ codes "RSA PRIVATE KEY") × (parse_pkcs1_private_key der ≡ inr k))
        ⊎ ((block_type b ≡ codes "PRIVATE KEY") × (parse_pkcs8_private_key der ≡ inr (some k)))
  unfolding parse_private_key
  parse_private_key_ok b der k h =
      elim (Bool-cases (eqb (block_type b) (codes "RSA PRIVATE KEY"))) [
        | inl e ↦ inl (eqb→eq _ _ e, call_ok _ (rw (parse_private_key, e) at h))
        | inr e ↦ elim (Bool-cases (eqb (block_type b) (codes "PRIVATE KEY"))) [
          | inr e' ↦ absurd (err_ne (rw (parse_private_key, e, e') at h))
          | inl e' ↦
              let (found, called, rsa) =
                ok_behind (call (parse_pkcs8_private_key der))
                  (rw (parse_private_key, e, e') at h) in
              inr (eqb→eq _ _ e', call_ok _ called ∙ ap inr (some_or_ok pkcs8_not_rsa found rsa))
        ]
      ]

  call-inr : {A : Type 0} (r : Fallible A) {a : A} → r ≡ inr a → call r ≡ ok a
  call-inr r h = rw h

  private_der_of :
      (b : PemBlock) (passphrase der : List ℕ)
      → ((is_encrypted_pem_block b ≡ false) × (block_bytes b ≡ der))
        ⊎ ((is_encrypted_pem_block b ≡ true)
            × (passphrase ≢ [])
            × (decrypt_pem_block b passphrase ≡ inr der))
      → private_der b passphrase ≡ ok der
  unfolding private_der
  private_der_of b passphrase der (inl (e, h)) = rw e (ap ok h)
  private_der_of b [] der (inr (e, given, h)) = absurd (given refl)
  private_der_of b (x ∷ w) der (inr (e, given, h)) = rw (e, h)

  -- The two types of a private key's block are different strings.
  not_both : eqb (codes "PRIVATE KEY") (codes "RSA PRIVATE KEY") ≡ false
  unfolding codes
  not_both = refl

  parse_private_key_of :
      (b : PemBlock) (der : List ℕ) (k : PrivateKey)
      → ((block_type b ≡ codes "RSA PRIVATE KEY") × (parse_pkcs1_private_key der ≡ inr k))
        ⊎ ((block_type b ≡ codes "PRIVATE KEY") × (parse_pkcs8_private_key der ≡ inr (some k)))
      → parse_private_key b der ≡ ok k
  unfolding parse_private_key
  parse_private_key_of b der k (inl (t, h)) = rw (t, eqb_refl (codes "RSA PRIVATE KEY"), h)
  parse_private_key_of b der k (inr (t, h)) = rw (t, not_both, eqb_refl (codes "PRIVATE KEY"), h)

  -- `LoadRSAPrivateKey` returns a key exactly if the file can be read and has a PEM block; the bytes to
  -- parse are those of a block that is not encrypted, or what decrypting an encrypted one under a
  -- passphrase that is not empty gives; and the key is what PKCS #1 gives for a block of type "RSA
  -- PRIVATE KEY", or the RSA key that PKCS #8 gives for one of type "PRIVATE KEY".
  pub load_rsa_private_key-LoadedFrom :
      (S : Os) (fs : S.Fs) (path : FilePath) (passphrase : List ℕ) (k : PrivateKey)
      → (load_rsa_private_key S fs path passphrase ≡ ok k) ↔ LoadedFrom S fs path passphrase k
  unfolding load_rsa_private_key
  load_rsa_private_key-LoadedFrom S fs path passphrase k = (there, back)
    where
      there : load_rsa_private_key S fs path passphrase ≡ ok k → LoadedFrom S fs path passphrase k
      there h =
          let (raw, read, h₁) = ok_behind (call (S.read_file fs path)) h in
          let (b, decoded, h₂) = ok_behind (some_or no_pem_block (pem_decode raw)) h₁ in
          let (der, opened, h₃) = ok_behind (private_der b passphrase) h₂ in
          record {
            raw = raw;
            block = b;
            der = der;
            read = call_ok _ read;
            decoded = some_or_ok no_pem_block _ decoded;
            in_clear = private_der_ok b passphrase der opened;
            parsed = parse_private_key_ok b der k h₃;
          }

      back : LoadedFrom S fs path passphrase k → load_rsa_private_key S fs path passphrase ≡ ok k
      back l = rw (
        l.read,
        l.decoded,
        private_der_of l.block passphrase l.der l.in_clear,
        parse_private_key_of l.block l.der k l.parsed,
      )

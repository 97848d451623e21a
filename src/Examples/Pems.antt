-- ===== src/Examples/Pems.antt =====
-- A private key that is loaded from a PEM file, with a stand-in for the parsers: the file is the block.
use cloudsync_decrypt_go.Common.{
  ℕ, ◌≡◌, ◌↔◌, refl, inl, inr, List, [], ◌∷◌, none, some, ok, codes, false, eqb, Error,
}
use cloudsync_decrypt_go.Pem.{
  X509, LoadedFrom, load_rsa_private_key, private_der, parse_private_key,
  load_rsa_private_key-LoadedFrom,
}
use cloudsync_decrypt_go.Examples.Disk.{toy_os}
use cloudsync_decrypt_go.Examples.Files.{tree}

-- Blocks that start with 7 are encrypted.
abbrev pub toy_x509 : X509 ℕ ℕ
toy_x509 = record {
  PemBlock = List ℕ;
  block_type = λ b. codes "PRIVATE KEY";
  block_bytes = λ b. b;
  pem_decode = λ raw. some raw;
  is_encrypted_pem_block = λ b. elim b [ [] ↦ false | x ∷ xs ↦ eqb (x ∷ []) (7 ∷ []) ];
  decrypt_pem_block = λ b w. inr w;
  parse_pkcs1_private_key = λ der. inl (Error.external 1);
  parse_pkcs8_private_key = λ der. inr (some 42);
  parse_pkix_public_key = λ der. inr none;
  parse_pkcs1_public_key = λ der. inr 43;
}

load_rsa_private_key-LoadedFrom_example :
    (load_rsa_private_key toy_x509 toy_os tree (1 ∷ []) (3 ∷ []) ≡ ok 42)
    ↔ LoadedFrom toy_x509 toy_os tree (1 ∷ []) (3 ∷ []) 42
load_rsa_private_key-LoadedFrom_example =
    load_rsa_private_key-LoadedFrom toy_x509 toy_os tree (1 ∷ []) (3 ∷ []) 42

-- The file is read from its block, which is not encrypted, without the passphrase.
loaded : LoadedFrom toy_x509 toy_os tree (1 ∷ []) (3 ∷ []) 42
unfolding load_rsa_private_key private_der parse_private_key codes
loaded = (load_rsa_private_key-LoadedFrom toy_x509 toy_os tree (1 ∷ []) (3 ∷ []) 42).0 refl

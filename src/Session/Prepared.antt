-- ===== src/Session/Prepared.antt =====
-- csenc/encrypt.go: what the key material of `start` looks like when it could be prepared.
use cloudsync_decrypt_go.Common.{
  ℕ, ◌<◌, ◌≡◌, inl, inr, refl, Bool, true, false, List, [], ◌∷◌, arith, ltb, leb, leb→le,
  Bool-cases, if◌then◌else◌, length, take, length-take, ok, map_error, random_session_key,
  ok_behind, ok_injective,
}
use mathlib.Core.Path.{subst}
use cloudsync_decrypt_go.Common.{All, map_error_ok, suc, zero, ap}
use cloudsync_decrypt_go.Wire.{Source, read_full}
use cloudsync_decrypt_go.Crypto.{Crypto}
use cloudsync_decrypt_go.Hex.{hex_encode, length-hex_encode}
use cloudsync_decrypt_go.Keys.{salted_digest}
use cloudsync_decrypt_go.Session.{
  EncryptOptions, major, at_least, pick_letters, random_alnum, random_hex, SessionKeys,
  prepare_salt, prepare_key1, prepare_key2, prepare_digest, prepare_key1_hash, prepare,
}

length-read_full : (n : ℕ) (s t : Source) (b : List ℕ) → read_full n s ≡ ok (b, t) → length b ≡ n
unfolding read_full
length-read_full n s t b h = elim (Bool-cases (leb n (length s.bytes))) [
  | inl e ↦
      let same : take n s.bytes ≡ b = cc (rw e at h) in
      rw (← same) (omega (arith, length-take n s.bytes, leb→le n (length s.bytes) e))
  | inr e ↦ cc (rw e at h)
]

length-pick_letters : (b : List ℕ) → length (pick_letters b) ≡ length b
unfolding pick_letters
length-pick_letters [] = refl
length-pick_letters (x ∷ b) = omega (arith, length-pick_letters b)

length-random_alnum :
    (r t : Source) (n : ℕ) (b : List ℕ) → random_alnum r n ≡ ok (b, t) → length b ≡ n
unfolding random_alnum
length-random_alnum r t n b h =
    let ((buf, u), e, k) = ok_behind (read_full n r) h in
    let same : pick_letters buf ≡ b = cc k in
    rw (← same, length-pick_letters buf) (length-read_full n r u buf e)

length-random_hex : (r t : Source) (b : List ℕ) → random_hex r 10 ≡ ok (b, t) → length b ≡ 10
unfolding random_hex
length-random_hex r t b h =
    let ((raw, u), e, k) = ok_behind (read_full 5 r) h in
    let same : take 10 (hex_encode raw) ≡ b = cc k in
    rw (← same) (
      omega (
        arith,
        length-take 10 (hex_encode raw),
        length-hex_encode raw,
        length-read_full 5 r u raw e,
      ))

-- The session key as it is wrapped: raw bytes in version 1, hexadecimal digits under a salt in
-- version 3.
pub data WireForm (raw : List ℕ) : List ℕ → List ℕ → Type 0 where
  plain_key : {salt on_wire : List ℕ} → salt ≡ [] → on_wire ≡ raw → WireForm raw salt on_wire
  hex_key :
      {salt on_wire : List ℕ}
      → 0 < length salt
      → on_wire ≡ hex_encode raw
      → WireForm raw salt on_wire

module _ (C : Crypto) where
  salt-WireForm :
      (v3 : Bool) (raw salt : List ℕ) (r t : Source)
      → prepare_salt C v3 r ≡ ok (salt, t)
      → WireForm raw salt (if v3 then hex_encode raw else raw)
  unfolding prepare_salt
  salt-WireForm true raw salt r t h = hex_key (omega (arith, length-random_alnum r t 8 salt h)) refl
  salt-WireForm false raw salt r t h = plain_key (cc h) refl

  -- A salted digest of the secret under some prefix of 10 bytes.
  pub record IsDigest (secret h : List ℕ) : Type 0 where
    pub prefix : List ℕ
    pub ten : length prefix ≡ 10
    pub same : h ≡ salted_digest C prefix secret

  prepare_digest-IsDigest :
      (secret h : List ℕ) (r t : Source) → prepare_digest C secret r ≡ ok (h, t) → IsDigest secret h
  unfolding prepare_digest
  prepare_digest-IsDigest secret h r t e =
      let ((prefix, u), k, d) = ok_behind (random_hex r 10) e in
      record { prefix = prefix; ten = length-random_hex r u prefix k; same = cc d }

  -- The parts of `SessionKeys` that fit together.
  pub record Prepared (o : EncryptOptions C.PublicKey) (s : SessionKeys) : Type 0 where
    pub form : WireForm s.raw s.salt s.on_wire
    pub key1 : prepare_key1 C o s.salt s.on_wire ≡ ok s.enc_key1
    pub password_digest : 0 < length o.password → IsDigest o.password s.key1_hash
    pub session_digest : IsDigest s.on_wire s.sess_key_hash

  key1_hash-IsDigest :
      (password h : List ℕ) (r t : Source)
      → prepare_key1_hash C password r ≡ ok (h, t)
      → 0 < length password
      → IsDigest password h
  unfolding prepare_key1_hash
  key1_hash-IsDigest password h r t e n =
      let long : ltb 0 (length password) ≡ true = ground arith in
      prepare_digest-IsDigest password h r t (rw long at e)

  -- Whatever `prepare` returns fits together.
  pub prepare-Prepared :
      (o : EncryptOptions C.PublicKey) (r : Source) (s : SessionKeys)
      → prepare C o r ≡ ok s
      → Prepared o s
  unfolding prepare
  prepare-Prepared o r s h =
      let ((raw, r₁), e₁, h₁) = ok_behind (map_error random_session_key (read_full 32 r)) h in
      let on_wire = if at_least (major o) 3 then hex_encode raw else raw in
      let ((salt, r₂), e₂, h₂) = ok_behind (prepare_salt C (at_least (major o) 3) r₁) h₁ in
      let (enc_key1, e₃, h₃) = ok_behind (prepare_key1 C o salt on_wire) h₂ in
      let ((enc_key2, r₄), e₄, h₄) = ok_behind (prepare_key2 C o.public_key on_wire r₂) h₃ in
      let ((key1_hash, r₅), e₅, h₅) = ok_behind (prepare_key1_hash C o.password r₄) h₄ in
      let ((sess_key_hash, r₆), e₆, h₆) = ok_behind (prepare_digest C on_wire r₅) h₅ in
      let same : record {
        raw = raw;
        on_wire = on_wire;
        salt = salt;
        enc_key1 = enc_key1;
        enc_key2 = enc_key2;
        key1_hash = key1_hash;
        sess_key_hash = sess_key_hash;
      }
          ≡ s =
        ok_injective h₆ in
      rw (← same) (record {
        form = salt-WireForm (at_least (major o) 3) raw salt r₁ r₂ e₂;
        key1 = e₃;
        password_digest = key1_hash-IsDigest o.password key1_hash r₄ r₅ e₅;
        session_digest = prepare_digest-IsDigest on_wire sess_key_hash r₅ r₆ e₆;
      })

All-take : (P : ℕ → Type 0) (n : ℕ) (xs : List ℕ) → All P xs → All P (take n xs)
All-take P zero xs h = tt
All-take P (suc n) [] h = tt
All-take P (suc n) (x ∷ xs) h = (h.0, All-take P n xs h.1)

read_full-All :
    (P : ℕ → Type 0) (n : ℕ) (s t : Source) (b : List ℕ)
    → read_full n s ≡ ok (b, t)
    → All P s.bytes
    → All P b
unfolding read_full
read_full-All P n s t b h a = elim (Bool-cases (leb n (length s.bytes))) [
  | inl e ↦
      let same : take n s.bytes ≡ b = cc (rw e at h) in subst (All P) same (All-take P n s.bytes a)
  | inr e ↦ cc (rw e at h)
]

-- A random source of bytes gives a raw session key of bytes.
pub prepare-All :
    (C : Crypto) (P : ℕ → Type 0) (o : EncryptOptions C.PublicKey) (r : Source) (s : SessionKeys)
    → prepare C o r ≡ ok s
    → All P r.bytes
    → All P s.raw
unfolding prepare
prepare-All C P o r s h a =
    let ((raw, r₁), e₁, h₁) = ok_behind (map_error random_session_key (read_full 32 r)) h in
    let on_wire = if at_least (major o) 3 then hex_encode raw else raw in
    let ((salt, r₂), e₂, h₂) = ok_behind (prepare_salt C (at_least (major o) 3) r₁) h₁ in
    let (enc_key1, e₃, h₃) = ok_behind (prepare_key1 C o salt on_wire) h₂ in
    let ((enc_key2, r₄), e₄, h₄) = ok_behind (prepare_key2 C o.public_key on_wire r₂) h₃ in
    let ((key1_hash, r₅), e₅, h₅) = ok_behind (prepare_key1_hash C o.password r₄) h₄ in
    let ((sess_key_hash, r₆), e₆, h₆) = ok_behind (prepare_digest C on_wire r₅) h₅ in
    subst (All P) (ap (λ (x : SessionKeys). x.raw) (ok_injective h₆))
      (read_full-All P 32 r r₁ raw (map_error_ok random_session_key (read_full 32 r) e₁) a)

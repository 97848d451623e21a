-- ===== src/Wire/Emit.antt =====
-- The byte form of a value: what csenc/wire.go reads, described without reference to it. The
-- encoder of csenc/encrypt.go is proved to write it, and `readOne` to read it back.
use cloudsync_decrypt_go.Common.{ℕ, zero, suc, ◌/◌, ◌%◌, ◌^◌, ◌≤◌, ◌<◌, ◌≡◌, List, [], ◌∷◌, ◌++◌}
use cloudsync_decrypt_go.Common.{
  arith, ◌==◌, if◌then◌else◌, length, refl, sym, ◌∙◌, Bool-cases, inl, inr, ==_iff,
}
use cloudsync_decrypt_go.Wire.{Value, Members, nil, dict, bytes, str, int, no_members, member}
use cloudsync_decrypt_go.Wire.{tag_end, tag_dict, tag_string, tag_bytes, tag_int, big_endian}

-- `binary.BigEndian.PutUint16`
abbrev pub put_uint16 : ℕ → List ℕ
put_uint16 n = (n / 256 % 256) ∷ (n % 256) ∷ []

-- `binary.BigEndian.PutUint64`
unfoldable pub put_uint64 : ℕ → List ℕ
put_uint64 n =
    (n / 2 ^ 56 % 256)
    ∷ (n / 2 ^ 48 % 256)
    ∷ (n / 2 ^ 40 % 256)
    ∷ (n / 2 ^ 32 % 256)
    ∷ (n / 2 ^ 24 % 256)
    ∷ (n / 2 ^ 16 % 256)
    ∷ (n / 2 ^ 8 % 256)
    ∷ (n % 256)
    ∷ []

-- `for start < 7 && b[start] == 0 { start++ }`, then `b[start:]`: the first argument counts the
-- rounds that are left.
unfoldable pub skip_zeros : ℕ → List ℕ → List ℕ
skip_zeros zero b = b
skip_zeros (suc k) [] = []
skip_zeros (suc k) (x ∷ b) = if x == 0 then skip_zeros k b else x ∷ b

-- `writeIntBody` of a number that is not negative, in both its branches.
unfoldable pub int_body : ℕ → List ℕ
int_body n =
    let digits = skip_zeros 7 (put_uint64 n) in
    if n == 0 then 1 ∷ 0 ∷ [] else length digits % 256 ∷ digits

abbrev pub blob : List ℕ → List ℕ
blob b = put_uint16 (length b) ++ b

unfoldable mutual
  pub emit : Value → List ℕ
  emit nil = tag_end ∷ []
  emit (dict ms) = tag_dict ∷ emit_members ms
  emit (bytes b) = tag_bytes ∷ blob b
  emit (str s) = tag_string ∷ blob s
  emit (int n) = tag_int ∷ int_body n

  pub emit_members : Members → List ℕ
  emit_members no_members = tag_end ∷ []
  emit_members (member k v ms) = emit k ++ (emit v ++ emit_members ms)

-- The values that have a byte form: blobs of at most 65535 bytes, numbers of 64 bits.
unfoldable mutual
  pub Fits : Value → Type 0
  Fits nil = ⊥
  Fits (dict ms) = FitsMembers ms
  Fits (bytes b) = length b < 65536
  Fits (str s) = length s < 65536
  Fits (int n) = n < 2 ^ 64

  pub FitsMembers : Members → Type 0
  FitsMembers no_members = Unit {0}
  FitsMembers (member k v ms) = Fits k × Fits v × FitsMembers ms

pub length-put_uint64 : (n : ℕ) → length (put_uint64 n) ≡ 8
unfolding put_uint64
length-put_uint64 n = omega arith

pub length-skip_zeros :
    (k : ℕ) (b : List ℕ)
    → k < length b
    → (0 < length (skip_zeros k b)) × (length (skip_zeros k b) ≤ length b)
unfolding skip_zeros
length-skip_zeros zero b h = omega arith
length-skip_zeros (suc k) [] h = absurd (omega arith)
length-skip_zeros (suc k) (x ∷ b) h = ground (arith, length-skip_zeros k b (omega arith))

-- Leading zeros do not change the number.
big_endian-skip_zeros : (k : ℕ) (b : List ℕ) → big_endian 0 (skip_zeros k b) ≡ big_endian 0 b
unfolding skip_zeros
big_endian-skip_zeros zero b = refl
big_endian-skip_zeros (suc k) [] = refl
big_endian-skip_zeros (suc k) (x ∷ b) = elim (Bool-cases (x == 0)) [
  | inl h ↦ rw h (big_endian-skip_zeros k b ∙ rw ((==_iff x 0).0 h))
  | inr h ↦ rw h
]

big_endian-put_uint64 : (n : ℕ) → n < 2 ^ 64 → big_endian 0 (put_uint64 n) ≡ n
unfolding put_uint64
big_endian-put_uint64 n h = omega arith

-- The digits that `int_body` writes for a number above 0.
abbrev pub int_digits : ℕ → List ℕ
int_digits n = skip_zeros 7 (put_uint64 n)

length-int_digits : (n : ℕ) → (0 < length (int_digits n)) × (length (int_digits n) ≤ 8)
length-int_digits n = omega (arith, length-skip_zeros 7 (put_uint64 n), length-put_uint64 n)

big_endian-int_digits : (n : ℕ) → n < 2 ^ 64 → big_endian 0 (int_digits n) ≡ n
big_endian-int_digits n h = big_endian-skip_zeros 7 (put_uint64 n) ∙ big_endian-put_uint64 n h

-- The body of a number is a length byte and digits that spell the number.
pub int_body_shape :
    (n : ℕ) → n < 2 ^ 64 → (ds : List ℕ) × (int_body n ≡ length ds ∷ ds) × (big_endian 0 ds ≡ n)
unfolding int_body
int_body_shape n h = elim (Bool-cases (n == 0)) [
  | inl z ↦ (0 ∷ [], rw z, sym ((==_iff n 0).0 z))
  | inr z ↦ (int_digits n, rw (z, byte_length), big_endian-int_digits n h)
]
  where
    byte_length : length (int_digits n) % 256 ≡ length (int_digits n)
    byte_length = omega (arith, length-int_digits n)

pub length-emit_pos : (v : Value) → 0 < length (emit v)
unfolding emit
length-emit_pos nil = omega arith
length-emit_pos _ = omega arith

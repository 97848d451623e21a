-- ===== src/Cli/Numeral.antt =====
-- cmd/cloudsync-decrypt/main.go: the numbers of `parseVersion`, which `strconv.ParseInt` reads, against
-- the decimal notation of an int64.
use cloudsync_decrypt_go.Common.{
  ℕ, zero, suc, ◌+◌, ◌-◌, ◌*◌, ◌^◌, ◌≤◌, ◌<◌, ◌≡◌, refl, sym, ap, ◌∙◌, true, false, List, [], ◌∷◌,
  none, some, Option, ok, err, ltb, le→leb, ltb→lt, lt→ltb, ◌==◌, arith, All, Bool-cases,
  Option-cases, inl, inr, ok_injective, err_ne, bad_integer,
}
use cloudsync_decrypt_go.Common.Signed.{ℤ, pos, negsuc}
use cloudsync_decrypt_go.Cli.Text.{
  is_digit, parse_digits, parse_natural, in_int64, negative, parse_int, HasNoDot,
}

-- An ASCII digit.
abbrev pub IsDigit : ℕ → Type 0
IsDigit c = (48 ≤ c) × (c ≤ 57)

-- The place of the digit in front of these, and the number that digits spell, each times its place.
abbrev pub place : List ℕ → ℕ
place [] = 1
place (c ∷ cs) = 10 * place cs

abbrev pub value : List ℕ → ℕ
value [] = 0
value (c ∷ cs) = (c - 48) * place cs + value cs

abbrev pub minus : ℕ → ℤ
minus zero = pos 0
minus (suc n) = negsuc n

-- The decimal notation of an int64: at least one digit, behind a sign or none.
pub data Numeral : List ℕ → ℤ → Type 0 where
  unsigned :
      (c : ℕ) (cs : List ℕ)
      → All IsDigit (c ∷ cs)
      → value (c ∷ cs) < 2 ^ 63
      → Numeral (c ∷ cs) (pos (value (c ∷ cs)))
  with_plus :
      (c : ℕ) (cs : List ℕ)
      → All IsDigit (c ∷ cs)
      → value (c ∷ cs) < 2 ^ 63
      → Numeral (43 ∷ c ∷ cs) (pos (value (c ∷ cs)))
  with_minus :
      (c : ℕ) (cs : List ℕ)
      → All IsDigit (c ∷ cs)
      → value (c ∷ cs) ≤ 2 ^ 63
      → Numeral (45 ∷ c ∷ cs) (minus (value (c ∷ cs)))

digit_true : (c : ℕ) → IsDigit c → is_digit c ≡ true
digit_true c (l, u) = rw (le→leb 48 c l, le→leb c 57 u)

is_digit-IsDigit : (c : ℕ) → is_digit c ≡ true → IsDigit c
is_digit-IsDigit c h = (ground arith, ground arith)

-- One more digit read moves the number so far by one place.
carry : (acc d w v : ℕ) → (acc * 10 + d) * w + v ≡ acc * (10 * w) + (d * w + v)
carry acc d w v = omega arith

digits_read :
    (acc : ℕ) (s : List ℕ) → All IsDigit s → parse_digits acc s ≡ some (acc * place s + value s)
unfolding parse_digits
digits_read acc [] h = ap some (omega arith)
digits_read acc (c ∷ cs) (d, h) =
    rw (digit_true c d)
      (digits_read (acc * 10 + (c - 48)) cs h ∙ ap some (carry acc (c - 48) (place cs) (value cs)))

digits_only : (acc n : ℕ) (s : List ℕ) → parse_digits acc s ≡ some n → All IsDigit s
unfolding parse_digits
digits_only acc n [] h = tt
digits_only acc n (c ∷ cs) h = elim (Bool-cases (is_digit c)) [
  | inl e ↦
      (is_digit-IsDigit c e, digits_only (acc * 10 + (c - 48)) n cs (rw (parse_digits, e) at h))
  | inr e ↦ absurd (none_some (rw (parse_digits, e) at h))
]
  where
    none_some : ◌≡◌ {A = Option ℕ} none (some n) → ⊥
    none_some k = cc

natural_read :
    (c : ℕ) (cs : List ℕ) → All IsDigit (c ∷ cs) → parse_natural (c ∷ cs) ≡ some (value (c ∷ cs))
unfolding parse_natural
natural_read c cs h = digits_read 0 (c ∷ cs) h ∙ ap some (omega arith)

-- What `parse_natural` accepts is digits, and their number.
natural_only :
    (s : List ℕ) (n : ℕ)
    → parse_natural s ≡ some n
    → (c : ℕ) × (cs : List ℕ) × (s ≡ c ∷ cs) × All IsDigit (c ∷ cs) × (n ≡ value (c ∷ cs))
unfolding parse_natural
natural_only [] n h = cc
natural_only (c ∷ cs) n h =
    let all = digits_only 0 n (c ∷ cs) h in
    (c, cs, refl, all, some_eq (sym h ∙ natural_read c cs all))
  where
    some_eq : {a b : ℕ} → ◌≡◌ {A = Option ℕ} (some a) (some b) → a ≡ b
    some_eq k = cc

int64_of : (n : ℕ) (z : ℤ) → in_int64 n ≡ ok z → (n < 2 ^ 63) × (z ≡ pos n)
unfolding in_int64
int64_of n z h = elim (Bool-cases (ltb n (2 ^ 63))) [
  | inl e ↦ (ltb→lt n (2 ^ 63) e, sym (ok_injective (rw (in_int64, e) at h)))
  | inr e ↦ absurd (err_ne (rw (in_int64, e) at h))
]

negative_of : (n : ℕ) (z : ℤ) → negative n ≡ ok z → (n ≤ 2 ^ 63) × (z ≡ minus n)
unfolding negative
negative_of zero z h = (omega arith, sym (ok_injective h))
negative_of (suc n) z h = elim (Bool-cases (ltb n (2 ^ 63))) [
  | inl e ↦ let l = ltb→lt n (2 ^ 63) e in (omega arith, sym (ok_injective (rw (negative, e) at h)))
  | inr e ↦ absurd (err_ne (rw (negative, e) at h))
]

int64_read : (n : ℕ) → n < 2 ^ 63 → in_int64 n ≡ ok (pos n)
unfolding in_int64
int64_read n h = rw (lt→ltb n (2 ^ 63) h)

negative_read : (n : ℕ) → n ≤ 2 ^ 63 → negative n ≡ ok (minus n)
unfolding negative
negative_read zero h = refl
negative_read (suc n) h = rw (lt→ltb n (2 ^ 63) (omega arith))

pub Numeral-parse_int : (s : List ℕ) (z : ℤ) → Numeral s z → parse_int s ≡ ok z
unfolding parse_int
Numeral-parse_int _ _ (unsigned c cs h l) =
    rw (not_minus, not_plus, natural_read c cs h, int64_read (value (c ∷ cs)) l)
  where
    not_minus : (c == 45) ≡ false
    not_minus = ground (arith, h.0.0)

    not_plus : (c == 43) ≡ false
    not_plus = ground (arith, h.0.0)
Numeral-parse_int _ _ (with_plus c cs h l) = rw (natural_read c cs h, int64_read (value (c ∷ cs)) l)
Numeral-parse_int _ _ (with_minus c cs h l) =
    rw (natural_read c cs h, negative_read (value (c ∷ cs)) l)

unsigned_only :
    (s : List ℕ) (z : ℤ)
    → elim (parse_natural s) [ none ↦ err bad_integer | some n ↦ in_int64 n ] ≡ ok z
    → (c : ℕ) × (cs : List ℕ) × (s ≡ c ∷ cs)
      × All IsDigit (c ∷ cs)
      × (value (c ∷ cs) < 2 ^ 63)
      × (z ≡ pos (value (c ∷ cs)))
unsigned_only s z h = elim (Option-cases (parse_natural s)) [
  | inl e ↦ absurd (err_ne (rw e at h))
  | inr (n, e) ↦
      let (l, is) = int64_of n z (rw e at h) in
      let (c, cs, seam, all, m) = natural_only s n e in
      (c, cs, seam, all, omega (arith, m, l), is ∙ ap pos m)
]

pub parse_int-Numeral : (s : List ℕ) (z : ℤ) → parse_int s ≡ ok z → Numeral s z
unfolding parse_int
parse_int-Numeral [] z h = absurd (err_ne h)
parse_int-Numeral (x ∷ xs) z h = elim (Bool-cases (x == 45)) [
  | inl e ↦ elim (Option-cases (parse_natural xs)) [
    | inl e' ↦ absurd (err_ne (rw (parse_int, e, e') at h))
    | inr (n, e') ↦
        let (l, is) = negative_of n z (rw (parse_int, e, e') at h) in
        let (c, cs, seam, all, m) = natural_only xs n e' in
        let first : x ≡ 45 = ground arith in
        rw (first, seam, is, m) (with_minus c cs all (omega (arith, m, l)))
  ]
  | inr e ↦ elim (Bool-cases (x == 43)) [
    | inl e' ↦
        let (c, cs, seam, all, l, is) = unsigned_only xs z (rw (parse_int, e, e') at h) in
        let first : x ≡ 43 = ground arith in rw (first, seam, is) (with_plus c cs all l)
    | inr e' ↦
        let (c, cs, seam, all, l, is) = unsigned_only (x ∷ xs) z (rw (parse_int, e, e') at h) in
        rw (seam, is) (unsigned c cs all l)
  ]
]

IsDigit-HasNoDot : (s : List ℕ) → All IsDigit s → HasNoDot s
IsDigit-HasNoDot [] h = tt
IsDigit-HasNoDot (c ∷ cs) ((l, u), h) = (λ e. omega arith, IsDigit-HasNoDot cs h)

pub Numeral-HasNoDot : (s : List ℕ) (z : ℤ) → Numeral s z → HasNoDot s
Numeral-HasNoDot _ _ (unsigned c cs h l) = IsDigit-HasNoDot (c ∷ cs) h
Numeral-HasNoDot _ _ (with_plus c cs h l) = (λ e. omega arith, IsDigit-HasNoDot (c ∷ cs) h)
Numeral-HasNoDot _ _ (with_minus c cs h l) = (λ e. omega arith, IsDigit-HasNoDot (c ∷ cs) h)

-- ===== src/Cli/Text.antt =====
-- cmd/cloudsync-decrypt/main.go: `parseVersion`, `trimEOL` and the scale of `humanBytes`. Of Go's
-- strconv, `ParseInt` in base 10 for 64 bits is written out, with one error for all that it rejects.
use cloudsync_decrypt_go.Common.{
  ℕ, zero, suc, ◌+◌, ◌-◌, ◌*◌, ◌/◌, ◌^◌, ◌≤◌, ◌<◌, ◌≡◌, ◌≢◌, refl, ap, ◌⊎◌, inl, inr, Bool, true,
  false, ◌&&◌, ◌||◌, Bool-cases, leb-false, ltb-false, leb→le, ltb→lt, List, [], ◌∷◌, ◌++◌, Option,
  none, some, bad_version, bad_version_major, bad_integer, version_major, version_minor, Result, ok,
  err, out_of_fuel, ◌>>=◌, map_error, All, ltb, leb, ◌==◌, if◌then◌else◌, arith,
}
use cloudsync_decrypt_go.Common.Signed.{ℤ, pos, negsuc, is_pos}

abbrev pub is_digit : ℕ → Bool
is_digit c = leb 48 c && leb c 57

-- The number that decimal digits spell behind `acc`.
unfoldable pub parse_digits : ℕ → List ℕ → Option ℕ
parse_digits acc [] = some acc
parse_digits acc (c ∷ cs) =
    let rest = parse_digits (acc * 10 + (c - 48)) cs in if is_digit c then rest else none

unfoldable pub parse_natural : List ℕ → Option ℕ
parse_natural [] = none
parse_natural (c ∷ cs) = parse_digits 0 (c ∷ cs)

unfoldable pub in_int64 : ℕ → Result ℤ
in_int64 n = if ltb n (2 ^ 63) then ok (pos n) else err bad_integer

-- -n
unfoldable pub negative : ℕ → Result ℤ
negative zero = ok (pos 0)
negative (suc n) = if ltb n (2 ^ 63) then ok (negsuc n) else err bad_integer

-- `strconv.ParseInt(s, 10, 64)`
unfoldable pub parse_int : List ℕ → Result ℤ
parse_int [] = err bad_integer
parse_int (c ∷ cs) =
    if c == 45
    then elim (parse_natural cs) [ none ↦ err bad_integer | some n ↦ negative n ]
    else elim (parse_natural (if c == 43 then cs else c ∷ cs)) [
      | none ↦ err bad_integer
      | some n ↦ in_int64 n
    ]

-- `strings.SplitN(s, ".", 2)`, where it has two parts.
unfoldable pub split_dot : List ℕ → Option (List ℕ × List ℕ)
split_dot [] = none
split_dot (c ∷ cs) =
    let rest = split_dot cs in
    if c == 46 then some ([], cs) else elim rest [ none ↦ none | some (a, b) ↦ some (c ∷ a, b) ]

-- No byte is a dot.
abbrev pub HasNoDot : List ℕ → Type 0
HasNoDot = All (λ (c : ℕ). c ≢ 46)

unfoldable pub check_major : ℤ → ℤ → Result (ℤ × ℤ)
check_major maj min = if is_pos maj 1 || is_pos maj 3 then ok (maj, min) else err bad_version_major

unfoldable pub parse_version : List ℕ → Result (ℤ × ℤ)
parse_version s = elim (split_dot s) [
  | none ↦ err bad_version
  | some (a, b) ↦ map_error version_major (parse_int a) >>= λ maj.
      map_error version_minor (parse_int b) >>= λ min. check_major maj min
]

abbrev pub is_eol : ℕ → Bool
is_eol c = c == 13 || c == 10

-- Whether nothing is left, for the byte in front of it.
abbrev pub cons_unless_eol : ℕ → List ℕ → List ℕ
cons_unless_eol c [] = if is_eol c then [] else c ∷ []
cons_unless_eol c (d ∷ ds) = c ∷ d ∷ ds

-- `strings.TrimRight(s, "\r\n")`
unfoldable pub trim_eol : List ℕ → List ℕ
trim_eol [] = []
trim_eol (c ∷ cs) = cons_unless_eol c (trim_eol cs)

-- The loop of `humanBytes`: `div` and `exp` behind it.
unfoldable pub scale_loop : ℕ → ℕ → ℕ → ℕ → Result (ℕ × ℕ)
scale_loop zero x div exp = out_of_fuel
scale_loop (suc fuel) x div exp =
    let rest = scale_loop fuel (x / 1024) (div * 1024) (exp + 1) in
    if leb 1024 x then rest else ok (div, exp)

-- `none` is a number below 1024, which is printed as it is. An int64 takes the loop five times at most.
unfoldable pub human_scale : ℕ → Result (Option (ℕ × ℕ))
human_scale n =
    if ltb n 1024 then ok none else (scale_loop 6 (n / 1024) 1024 0 >>= λ r. ok (some r))

-- A number of bytes, as an int64, is scaled by a power of 1024 that makes it at least one and less
-- than 1024 units, and the exponent is one for which "KMGTPE" has a letter.
pub human_scale_lem :
    (n : ℕ)
    → n < 2 ^ 63
    → ((n < 1024) × (human_scale n ≡ ok none))
      ⊎ ((e : ℕ) × (e < 6)
          × (human_scale n ≡ ok (some (1024 ^ (e + 1), e)))
          × (1024 ^ (e + 1) ≤ n)
          × (n < 1024 ^ (e + 2)))
unfolding human_scale scale_loop
human_scale_lem n h = elim (Bool-cases (ltb n 1024)) [
  | inl e ↦ inl (ltb→lt n 1024 e, rw e)
  | inr e ↦
      let l = ltb-false n 1024 e in
      elim (Bool-cases (leb 1024 (n / 1024))) [
        | inr e0 ↦
            let l0 = leb-false 1024 (n / 1024) e0 in
            inr (0, omega arith, rw (e, e0), omega arith, omega arith)
        | inl e0 ↦
            let l0 = leb→le 1024 (n / 1024) e0 in
            elim (Bool-cases (leb 1024 (n / 1024 / 1024))) [
              | inr e1 ↦
                  let l1 = leb-false 1024 (n / 1024 / 1024) e1 in
                  inr (1, omega arith, rw (e, e0, e1), omega arith, omega arith)
              | inl e1 ↦
                  let l1 = leb→le 1024 (n / 1024 / 1024) e1 in
                  elim (Bool-cases (leb 1024 (n / 1024 / 1024 / 1024))) [
                    | inr e2 ↦
                        let l2 = leb-false 1024 (n / 1024 / 1024 / 1024) e2 in
                        inr (2, omega arith, rw (e, e0, e1, e2), omega arith, omega arith)
                    | inl e2 ↦
                        let l2 = leb→le 1024 (n / 1024 / 1024 / 1024) e2 in
                        elim (Bool-cases (leb 1024 (n / 1024 / 1024 / 1024 / 1024))) [
                          | inr e3 ↦
                              let l3 = leb-false 1024 (n / 1024 / 1024 / 1024 / 1024) e3 in
                              inr (3, omega arith, rw (e, e0, e1, e2, e3), omega arith, omega arith)
                          | inl e3 ↦
                              let l3 = leb→le 1024 (n / 1024 / 1024 / 1024 / 1024) e3 in
                              elim (Bool-cases (leb 1024 (n / 1024 / 1024 / 1024 / 1024 / 1024))) [
                                | inr e4 ↦
                                    let l4 =
                                      leb-false 1024 (n / 1024 / 1024 / 1024 / 1024 / 1024) e4 in
                                    inr (
                                      4,
                                      omega arith,
                                      rw (e, e0, e1, e2, e3, e4),
                                      omega arith,
                                      omega arith,
                                    )
                                | inl e4 ↦
                                    let l4 =
                                      leb→le 1024 (n / 1024 / 1024 / 1024 / 1024 / 1024) e4 in
                                    elim (Bool-cases
                                      (leb 1024 (n / 1024 / 1024 / 1024 / 1024 / 1024 / 1024))) [
                                        | inr e5 ↦
                                            let l5 =
                                              leb-false 1024
                                                (n / 1024 / 1024 / 1024 / 1024 / 1024 / 1024) e5 in
                                            inr (
                                              5,
                                              omega arith,
                                              rw (e, e0, e1, e2, e3, e4, e5),
                                              omega arith,
                                              omega arith,
                                            )
                                        | inl e5 ↦
                                            let l5 =
                                              leb→le 1024
                                                (n / 1024 / 1024 / 1024 / 1024 / 1024 / 1024) e5 in
                                            absurd (omega arith)
                                      ]
                              ]
                        ]
                  ]
            ]
      ]
]

-- The bytes of a line's end.
abbrev pub IsEol : ℕ → Type 0
IsEol c = is_eol c ≡ true

-- The last byte, if there is one, is not of a line's end.
abbrev pub EndsInText : List ℕ → Type 0
EndsInText [] = Unit {0}
EndsInText (c ∷ []) = is_eol c ≡ false
EndsInText (c ∷ d ∷ ds) = EndsInText (d ∷ ds)

-- `trimEOL` cuts off bytes of a line's end and nothing else, and as many as there are: what is left
-- has none at its end, if anything is left.
pub trim_eol_lem :
    (b : List ℕ)
    → (cut : List ℕ) × All IsEol cut × (b ≡ trim_eol b ++ cut) × EndsInText (trim_eol b)
unfolding trim_eol
trim_eol_lem [] = ([], tt, refl, tt)
trim_eol_lem (c ∷ cs) =
    let (cut, all, seam, text) = trim_eol_lem cs in rest (trim_eol cs) cut all seam text
  where
    rest :
        (t cut : List ℕ)
        → All IsEol cut
        → cs ≡ t ++ cut
        → EndsInText t
        → (cut' : List ℕ) × All IsEol cut'
          × (c ∷ cs ≡ cons_unless_eol c t ++ cut')
          × EndsInText (cons_unless_eol c t)
    rest (d ∷ ds) cut all seam text = (cut, all, ap (λ (x : List ℕ). c ∷ x) seam, text)
    rest [] cut all seam text = elim (Bool-cases (is_eol c)) [
      | inl e ↦ (c ∷ cut, (e, all), rw e (ap (λ (x : List ℕ). c ∷ x) seam), rw e tt)
      | inr e ↦ (cut, all, rw e (ap (λ (x : List ℕ). c ∷ x) seam), rw (e, e))
    ]

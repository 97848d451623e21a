-- ===== src/Cli/Version.antt =====
-- cmd/cloudsync-decrypt/main.go: what `parseVersion` accepts.
use cloudsync_decrypt_go.Common.{
  ℕ, ◌≡◌, ◌↔◌, ◌⊎◌, refl, sym, ap, false, List, [], ◌∷◌, ◌++◌, none, some, Option, version_major,
  version_minor, Result, ok, ◌==◌, arith, Bool-cases, Option-cases, inl, inr, ok_injective,
  ok_behind, map_error, map_error_ok, err_ne,
}
use cloudsync_decrypt_go.Common.Signed.{ℤ, pos, is_pos, is_pos→eq}
use cloudsync_decrypt_go.Cli.Text.{parse_int, split_dot, check_major, parse_version, HasNoDot}
use cloudsync_decrypt_go.Cli.Numeral.{
  Numeral, Numeral-parse_int, parse_int-Numeral, Numeral-HasNoDot,
}

-- The cut at the first dot.
cut_read : (a b : List ℕ) → HasNoDot a → split_dot (a ++ 46 ∷ b) ≡ some (a, b)
unfolding split_dot
cut_read [] b h = refl
cut_read (c ∷ cs) b (d, h) = rw (ne, cut_read cs b h)
  where
    ne : (c == 46) ≡ false
    ne = ground (arith, d)

cut_only : (s a b : List ℕ) → split_dot s ≡ some (a, b) → s ≡ a ++ 46 ∷ b
unfolding split_dot
cut_only [] a b h = cc
cut_only (c ∷ cs) a b h = elim (Bool-cases (c == 46)) [
  | inl e ↦ let first : c ≡ 46 = ground arith in pair_of first (rw (split_dot, e) at h)
  | inr e ↦ elim (Option-cases (split_dot cs)) [
    | inl e' ↦ absurd (none_some (rw (split_dot, e, e') at h))
    | inr ((a', b'), e') ↦ joined a' b' (cut_only cs a' b' e') (rw (split_dot, e, e') at h)
  ]
]
  where
    none_some : ◌≡◌ {A = Option (List ℕ × List ℕ)} none (some (a, b)) → ⊥
    none_some k = cc

    pair_of :
        c ≡ 46
        → ◌≡◌ {A = Option (List ℕ × List ℕ)} (some ([], cs)) (some (a, b))
        → c ∷ cs ≡ a ++ 46 ∷ b
    pair_of first k = cc

    joined :
        (a' b' : List ℕ)
        → cs ≡ a' ++ 46 ∷ b'
        → ◌≡◌ {A = Option (List ℕ × List ℕ)} (some (c ∷ a', b')) (some (a, b))
        → c ∷ cs ≡ a ++ 46 ∷ b
    joined a' b' k j = cc

-- The two major versions.
abbrev pub IsMajor : ℤ → Type 0
IsMajor z = (z ≡ pos 1) ⊎ (z ≡ pos 3)

IsMajor-check_major : (maj min : ℤ) → IsMajor maj → check_major maj min ≡ ok (maj, min)
unfolding check_major
IsMajor-check_major maj min (inl h) = rw h
IsMajor-check_major maj min (inr h) = rw h

check_major-IsMajor :
    (maj min maj' min' : ℤ)
    → check_major maj min ≡ ok (maj', min')
    → IsMajor maj × (maj' ≡ maj) × (min' ≡ min)
unfolding check_major
check_major-IsMajor maj min maj' min' k = elim (Bool-cases (is_pos maj 1)) [
  | inl e ↦ halves (inl (is_pos→eq maj 1 e)) (rw (check_major, e) at k)
  | inr e ↦ elim (Bool-cases (is_pos maj 3)) [
    | inl e' ↦ halves (inr (is_pos→eq maj 3 e')) (rw (check_major, e, e') at k)
    | inr e' ↦ absurd (err_ne (rw (check_major, e, e') at k))
  ]
]
  where
    halves :
        IsMajor maj
        → ◌≡◌ {A = Result (ℤ × ℤ)} (ok (maj, min)) (ok (maj', min'))
        → IsMajor maj × (maj' ≡ maj) × (min' ≡ min)
    halves known j = (
      known,
      sym (ap (λ (r : ℤ × ℤ). r.0) (ok_injective j)),
      sym (ap (λ (r : ℤ × ℤ). r.1) (ok_injective j)),
    )

-- A version number in the form that the flag is documented to have, N.M.
abbrev pub IsVersion : List ℕ → ℤ → ℤ → Type 0
IsVersion s maj min =
    (a b : List ℕ) × (s ≡ a ++ 46 ∷ b) × Numeral a maj × Numeral b min × IsMajor maj

IsVersion-parse_version :
    (s : List ℕ) (maj min : ℤ) → IsVersion s maj min → parse_version s ≡ ok (maj, min)
unfolding parse_version
IsVersion-parse_version s maj min (a, b, seam, m, n, known) = rw (
  seam,
  parse_version,
  cut_read a b (Numeral-HasNoDot a maj m),
  Numeral-parse_int a maj m,
  Numeral-parse_int b min n,
  IsMajor-check_major maj min known,
)

parse_version-IsVersion :
    (s : List ℕ) (maj min : ℤ) → parse_version s ≡ ok (maj, min) → IsVersion s maj min
unfolding parse_version
parse_version-IsVersion s maj min h = elim (Option-cases (split_dot s)) [
  | inl e ↦ absurd (err_ne (rw (parse_version, e) at h))
  | inr ((a, b), e) ↦
      let (maj', k, h₁) =
        ok_behind (map_error version_major (parse_int a)) (rw (parse_version, e) at h) in
      let (min', j, h₂) = ok_behind (map_error version_minor (parse_int b)) h₁ in
      let (known, same_major, same_minor) = check_major-IsMajor maj' min' maj min h₂ in
      rw (same_major, same_minor)
        (
          a,
          b,
          cut_only s a b e,
          parse_int-Numeral a maj' (map_error_ok version_major (parse_int a) k),
          parse_int-Numeral b min' (map_error_ok version_minor (parse_int b) j),
          known,
        )
]

-- `parseVersion` accepts exactly the strings that are two numerals with a dot between them, of which
-- the first is 1 or 3, and returns their numbers. A numeral is one decimal digit or more, behind a
-- sign or none, with a value that an int64 has.
pub parse_version_iff :
    (s : List ℕ) (maj min : ℤ) → (parse_version s ≡ ok (maj, min)) ↔ IsVersion s maj min
parse_version_iff s maj min = (parse_version-IsVersion s maj min, IsVersion-parse_version s maj min)

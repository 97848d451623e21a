-- ===== src/Padding/RoundTrip.antt =====
-- `unpadPKCS7` accepts exactly what `pkcs7Pad` makes for blocks of 16 bytes, and returns what was padded.
use cloudsync_decrypt_go.Common.{
  ℕ, zero, suc, ◌+◌, ◌-◌, ◌%◌, ◌≤◌, ◌<◌, ◌≡◌, ◌↔◌, refl, sym, ap, ◌∙◌, true, false, List, [], ◌∷◌,
  ◌++◌, ◌||◌,
}
use cloudsync_decrypt_go.Common.{
  arith, ltb, length, take, drop, replicate, length-append, length-replicate, length-drop,
  length-take, take-append-drop, take_seam, drop_seam, ok,
}
use cloudsync_decrypt_go.Padding.{is_unaligned, padding, pkcs7_pad, last, all_are, unpad_pkcs7}

all_are-replicate : (p n : ℕ) → all_are p (replicate n p) ≡ true
unfolding all_are
all_are-replicate p zero = refl
all_are-replicate p (suc n) = ground (arith, all_are-replicate p n)

all_are→replicate : (p : ℕ) (xs : List ℕ) → all_are p xs ≡ true → xs ≡ replicate (length xs) p
unfolding all_are
all_are→replicate p [] h = refl
all_are→replicate p (x ∷ xs) h = ground (arith, all_are→replicate p xs)

last-replicate : (n p : ℕ) → last (replicate (suc n) p) ≡ p
last-replicate zero p = refl
last-replicate (suc n) p = last-replicate n p

last-append : (xs ys : List ℕ) → 0 < length ys → last (xs ++ ys) ≡ last ys
last-append [] ys h = refl
last-append (x ∷ []) [] h = absurd (omega arith)
last-append (x ∷ []) (y ∷ ys) h = refl
last-append (x ∷ x' ∷ xs) ys h = last-append (x' ∷ xs) ys h

-- How many bytes are appended.
abbrev pub pad_count : List ℕ → ℕ
pad_count b = 16 - length b % 16

pub length-pad : (b : List ℕ) → length (pkcs7_pad b 16) ≡ length b + pad_count b
unfolding pkcs7_pad
length-pad b =
    length-append b (padding 16 (length b)) ∙ ap (λ (t : ℕ). length b + t) (length-replicate _ _)

last-pad : (b : List ℕ) → last (pkcs7_pad b 16) ≡ pad_count b
unfolding pkcs7_pad
last-pad b =
    last-append b (padding 16 (length b))
      (omega (arith, length-replicate (pad_count b) (pad_count b % 256)))
    ∙ last_of (pad_count b) (omega arith)
    ∙ omega arith
  where
    last_of : (n : ℕ) → 0 < n → last (replicate n (n % 256)) ≡ n % 256
    last_of zero h = absurd (omega arith)
    last_of (suc n) h = last-replicate n (suc n % 256)

pad_parts :
    (b : List ℕ)
    → (take (length b) (pkcs7_pad b 16) ≡ b)
      × (all_are (pad_count b) (drop (length b) (pkcs7_pad b 16)) ≡ true)
unfolding pkcs7_pad
pad_parts b = (
  take_seam (length b) b _ refl,
  rw (drop_seam (length b) b (padding 16 (length b)) refl, small) (all_are-replicate _ _),
)
  where
    small : pad_count b % 256 ≡ pad_count b
    small = omega arith

-- The length of a padded buffer is a positive multiple of 16.
pub pad-aligned : (b : List ℕ) → is_unaligned (pkcs7_pad b 16) ≡ false
pad-aligned b = ground (arith, length-pad b)

pub length-pad_mod : (b : List ℕ) → length (pkcs7_pad b 16) % 16 ≡ 0
length-pad_mod b = omega (arith, length-pad b)

-- Stripping the padding that `pkcs7Pad` appends gives back the buffer.
pub unpad-pad : (b : List ℕ) → unpad_pkcs7 (pkcs7_pad b 16) ≡ ok b
unfolding unpad_pkcs7
unpad-pad b = rw (pad-aligned b, last-pad b, in_range, start, (pad_parts b).0, (pad_parts b).1)
  where
    in_range : (ltb (pad_count b) 1 || ltb 16 (pad_count b)) ≡ false
    in_range = ground arith

    start : length (pkcs7_pad b 16) - pad_count b ≡ length b
    start = omega (arith, length-pad b)

unpad_checks :
    (buf b : List ℕ)
    → unpad_pkcs7 buf ≡ ok b
    → (0 < length buf)
      × (length buf % 16 ≡ 0)
      × (1 ≤ last buf)
      × (last buf ≤ 16)
      × (all_are (last buf) (drop (length buf - last buf) buf) ≡ true)
      × (take (length buf - last buf) buf ≡ b)
unfolding unpad_pkcs7
unpad_checks buf b h = ground arith

-- Whatever `unpadPKCS7` accepts is what it returns, padded.
unpad→pad : (buf b : List ℕ) → unpad_pkcs7 buf ≡ ok b → buf ≡ pkcs7_pad b 16
unfolding pkcs7_pad
unpad→pad buf b h =
    let (nonempty, aligned, low, high, same, body) = unpad_checks buf b h in
    let n = length buf - last buf in
    let size : length b ≡ n = rw (← body) (omega (arith, length-take n buf)) in
    let count : 16 - length b % 16 ≡ last buf = rw size (omega arith) in
    let small : last buf % 256 ≡ last buf = omega arith in
    let tail : drop n buf ≡ replicate (last buf) (last buf) =
      all_are→replicate (last buf) (drop n buf) same
      ∙ ap (λ (t : ℕ). replicate t (last buf)) (omega (arith, length-drop n buf)) in
    rw (count, small) (sym (take-append-drop n buf) ∙ rw (tail, body))

-- `unpadPKCS7` returns a buffer exactly when it was given that buffer with the padding of `pkcs7Pad`:
-- every other input is refused.
pub unpad-eq-ok_iff : (buf b : List ℕ) → (unpad_pkcs7 buf ≡ ok b) ↔ (buf ≡ pkcs7_pad b 16)
unpad-eq-ok_iff buf b = (unpad→pad buf b, λ e. rw e (unpad-pad b))

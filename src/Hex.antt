-- ===== src/Hex.antt =====
-- Go's encoding/hex as csenc uses it: `EncodeToString` and `DecodeString`.
use cloudsync_decrypt_go.Common.{
  ℕ, ◌+◌, ◌-◌, ◌*◌, ◌/◌, ◌%◌, ◌<◌, ◌≡◌, refl, ap, List, [], ◌∷◌, ◌&&◌,
}
use cloudsync_decrypt_go.Common.{
  Option, none, some, arith, ltb, leb, if◌then◌else◌, length, All, Result, ok, err, bad_hex, ◌>>=◌,
  Post, value, failure, Post-bind,
}

-- A value of the type byte.
abbrev pub IsByte : ℕ → Type 0
IsByte b = b < 256

-- The digits are 0-9 and a-f.
unfoldable pub hex_digit : ℕ → ℕ
hex_digit n = if ltb n 10 then b'0' + n else 87 + n

unfoldable pub hex_encode : List ℕ → List ℕ
unfolding hex_digit
hex_encode [] = []
hex_encode (b ∷ bs) = hex_digit (b / 16) ∷ hex_digit (b % 16) ∷ hex_encode bs

unfoldable pub from_hex_digit : ℕ → Option ℕ
from_hex_digit c =
    if leb b'0' c && leb c b'9'
    then some (c - b'0')
    else if leb b'a' c && leb c b'f'
    then some (c - 87)
    else if leb b'A' c && leb c b'F'
    then some (c - 55)
    else none

abbrev join_digits : Option ℕ → Option ℕ → Result ℕ
join_digits (some h) (some l) = ok (16 * h + l)
join_digits (some h) none = err bad_hex
join_digits none l = err bad_hex

unfoldable pub hex_decode : List ℕ → Result (List ℕ)
unfolding from_hex_digit
hex_decode [] = ok []
hex_decode (c ∷ []) = err bad_hex
hex_decode (c ∷ d ∷ cs) = do
  b ← join_digits (from_hex_digit c) (from_hex_digit d)
  bs ← hex_decode cs
  ok (b ∷ bs)

from_hex-hex_digit : (n : ℕ) → n < 16 → from_hex_digit (hex_digit n) ≡ some n
unfolding from_hex_digit hex_digit
from_hex-hex_digit n h = ground arith

unfold_decode :
    (c d b : ℕ) (cs bs : List ℕ)
    → join_digits (from_hex_digit c) (from_hex_digit d) ≡ ok b
    → hex_decode cs ≡ ok bs
    → hex_decode (c ∷ d ∷ cs) ≡ ok (b ∷ bs)
unfolding hex_decode
unfold_decode c d b cs bs p q = rw (p, q)

-- Decoding what was encoded gives back the bytes.
pub hex_decode-encode : (bs : List ℕ) → All IsByte bs → hex_decode (hex_encode bs) ≡ ok bs
unfolding hex_encode
hex_decode-encode [] h = unfold hex_decode in refl
hex_decode-encode (b ∷ bs) h =
    unfold_decode _ _ b _ bs
      (rw (from_hex-hex_digit (b / 16) (omega arith), from_hex-hex_digit (b % 16) (omega arith))
        (ap ok (omega arith)))
      (hex_decode-encode bs h.1)

pub length-hex_encode : (bs : List ℕ) → length (hex_encode bs) ≡ 2 * length bs
unfolding hex_encode
length-hex_encode [] = refl
length-hex_encode (b ∷ bs) = omega (arith, length-hex_encode bs)

-- Decoding returns.
pub hex_decode-Post : (cs : List ℕ) → Post (λ b. Unit {0}) (hex_decode cs)
unfolding hex_decode
hex_decode-Post [] = value tt
hex_decode-Post (c ∷ []) = failure
hex_decode-Post (c ∷ d ∷ cs) =
    Post-bind (joined (from_hex_digit c) (from_hex_digit d))
      (λ b h. Post-bind (hex_decode-Post cs) (λ bs h. value tt))
  where
    joined : (h l : Option ℕ) → Post (λ n. Unit {0}) (join_digits h l)
    joined (some h) (some l) = value tt
    joined (some h) none = failure
    joined none l = failure

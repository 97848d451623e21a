-- ===== src/Padding.antt =====
-- PKCS#7 padding: `pkcs7Pad` of csenc/encrypt.go and `unpadPKCS7` of csenc/decrypt.go.
pub mod RoundTrip
pub mod Cut
use cloudsync_decrypt_go.Common.{
  ℕ, zero, suc, ◌+◌, ◌-◌, ◌%◌, Bool, true, false, List, [], ◌∷◌, ◌++◌, ◌&&◌, ◌||◌, not,
}
use cloudsync_decrypt_go.Common.{◌==◌, ltb, if◌then◌else◌, length, take, drop, replicate}
use cloudsync_decrypt_go.Common.{
  not_aes_aligned, pad_out_of_range, pad_inconsistent, Result, ok, err,
}

-- `aes.BlockSize`
abbrev pub block_size : ℕ
block_size = 16

-- `len(b) == 0 || len(b)%aes.BlockSize != 0`
abbrev pub is_unaligned : List ℕ → Bool
is_unaligned b = length b == 0 || not (length b % block_size == 0)

-- The bytes that are appended to a buffer of `n` bytes.
abbrev pub padding : ℕ → ℕ → List ℕ
padding size n = let pad_len = size - n % size in replicate pad_len (pad_len % 256)

unfoldable pub pkcs7_pad : List ℕ → ℕ → List ℕ
pkcs7_pad b size = b ++ padding size (length b)

-- `buf[len(buf)-1]`
abbrev pub last : List ℕ → ℕ
last [] = 0
last (x ∷ []) = x
last (x ∷ y ∷ ys) = last (y ∷ ys)

-- The loop over the tail bytes.
unfoldable pub all_are : ℕ → List ℕ → Bool
all_are pad [] = true
all_are pad (b ∷ bs) = b == pad && all_are pad bs

unfoldable pub unpad_pkcs7 : List ℕ → Result (List ℕ)
unpad_pkcs7 buf =
    let pad = last buf in
    let n = length buf - pad in
    if is_unaligned buf
    then err (not_aes_aligned (length buf))
    else if ltb pad 1 || ltb block_size pad
    then err (pad_out_of_range pad)
    else if all_are pad (drop n buf)
    then ok (take n buf)
    else err pad_inconsistent

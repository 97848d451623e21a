-- ===== src/Padding/Cut.antt =====
-- A padded buffer that is cut at a block boundary, for csenc/decrypt.go, which strips the last block.
use cloudsync_decrypt_go.Common.{
  ℕ, ◌+◌, ◌-◌, ◌%◌, ◌≤◌, ◌≡◌, refl, sym, ap, ◌∙◌, List, ◌++◌, append_assoc, arith, length, take,
  drop, length-append, length-take, length-drop, length-replicate, take-append-drop, take_seam,
  drop_seam,
}
use cloudsync_decrypt_go.Padding.{padding, pkcs7_pad}

-- If a padded buffer is cut at a block boundary, the last part is the padded last part.
pub pad_cut :
    (plain sent b : List ℕ)
    → sent ++ b ≡ pkcs7_pad plain 16
    → length sent % 16 ≡ 0
    → 16 ≤ length b
    → (t : List ℕ) × (b ≡ pkcs7_pad t 16) × (sent ++ t ≡ plain)
unfolding pkcs7_pad
pad_cut plain sent b e a n =
    let k = length sent in
    let t = drop k plain in
    let pad = padding 16 (length plain) in
    let total : k + length b ≡ length plain + length pad =
      sym (length-append sent b) ∙ ap (λ (x : List ℕ). length x) e ∙ length-append plain pad in
    let pad_size : length pad ≡ 16 - length plain % 16 = length-replicate _ _ in
    let split : take k plain ++ (t ++ pad) ≡ plain ++ pad =
      sym (append_assoc (take k plain) t pad)
      ∙ ap (λ (x : List ℕ). x ++ pad) (take-append-drop k plain) in
    let size : length (take k plain) ≡ k = omega (arith, length-take k plain) in
    let both : sent ++ b ≡ take k plain ++ (t ++ pad) = e ∙ sym split in
    let front : take k plain ≡ sent =
      sym (take_seam k (take k plain) (t ++ pad) (sym size))
      ∙ ap (λ (x : List ℕ). take k x) (sym both)
      ∙ take_seam k sent b refl in
    let back : b ≡ t ++ pad =
      sym (drop_seam k sent b refl)
      ∙ ap (λ (x : List ℕ). drop k x) both
      ∙ drop_seam k (take k plain) (t ++ pad) (sym size) in
    let same : 16 - length plain % 16 ≡ 16 - length t % 16 = omega (arith, length-drop k plain) in
    (t, back ∙ rw same, ap (λ (x : List ℕ). x ++ t) (sym front) ∙ take-append-drop k plain)

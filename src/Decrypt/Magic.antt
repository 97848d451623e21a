-- ===== src/Decrypt/Magic.antt =====
-- csenc/decrypt.go: `consumeMagic` on the magic that `writeMagic` writes.
use cloudsync_decrypt_go.Common.{
  ℕ, ◌≡◌, refl, List, ◌++◌, append_assoc, arith, length, codes, eqb_refl, Error, ok,
}
use cloudsync_decrypt_go.Wire.RoundTrip.{source, read_full-append}
use cloudsync_decrypt_go.Crypto.{Crypto}
use cloudsync_decrypt_go.Hex.{hex_encode, length-hex_encode}
use cloudsync_decrypt_go.Encoder.{file_magic, magic_checksum_len}
use cloudsync_decrypt_go.Recover.{consume_magic}
use cloudsync_decrypt_go.Writer.Start.{magic_bytes}

-- `consumeMagic` accepts what `writeMagic` writes, and leaves the reader right behind it.
pub consume_magic_lem :
    (C : Crypto) (rest : List ℕ) (e : Error)
    → consume_magic C (source (magic_bytes C.md5 ++ rest) e) ≡ ok (source rest e)
unfolding consume_magic
consume_magic_lem C rest e =
    let sum = hex_encode (C.md5 (codes file_magic)) in
    let size : magic_checksum_len ≡ length sum =
      omega
        (arith, length-hex_encode (C.md5 (codes file_magic)), C.length-md5 (codes file_magic)) in
    rw (
      append_assoc (codes file_magic) sum rest,
      read_full-append (length (codes file_magic)) (codes file_magic) (sum ++ rest) e refl,
      eqb_refl (codes file_magic),
      read_full-append magic_checksum_len sum rest e size,
      eqb_refl sum,
    )

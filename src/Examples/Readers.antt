-- ===== src/Examples/Readers.antt =====
-- Readers on what `Encrypt` wrote, at a concrete input.
use cloudsync_decrypt_go.Common.{
  ℕ, ◌+◌, ◌≤◌, ◌≡◌, refl, [], ◌∷◌, none, some, Option, ap, ◌∙◌, Error, ok, eof, arith,
}
use cloudsync_decrypt_go.Io.{buffer}
use cloudsync_decrypt_go.Wire.RoundTrip.{source}
use cloudsync_decrypt_go.Writer.{encrypt}
use cloudsync_decrypt_go.Reader.{Reader, new_reader_with_closer, read_all, close}
use cloudsync_decrypt_go.Reader.Stream.{
  read_all-encrypt, close-close, Closing, Wraps-closed_pipe, walks_away, surfaces,
}
use cloudsync_decrypt_go.Examples.Toy.{toy_crypto, toy_lz4, toy_rand}
use cloudsync_decrypt_go.Examples.EndToEnd.{o, inp, no_compression, random-IsByte, encrypted}

-- A reader with a closer that fails.
abbrev reader : Reader ℕ
reader =
    new_reader_with_closer (source (encrypt buffer toy_crypto toy_lz4 toy_rand inp [] o).0 eof)
      (some (Error.external 5)) (record { password = some o.password; private_key = none })

read_all-encrypt_example :
    (read_all toy_crypto toy_lz4 reader ≡ (1 ∷ 2 ∷ 3 ∷ 4 ∷ [], ok eof))
    × ((e : Option Error) × Closing (some (Error.external 5)) e
        × ((close toy_crypto toy_lz4 none reader).1 ≡ ok e))
read_all-encrypt_example =
    read_all-encrypt toy_crypto toy_lz4 buffer toy_rand o inp [] none (some (Error.external 5))
      (record { number = 0; minor_is = refl; in_range = omega arith }) no_compression (omega arith)
      random-IsByte refl encrypted

external_surfaces :
    {e : Option Error} → Closing (some (Error.external 5)) e → e ≡ some (Error.external 5)
external_surfaces (walks_away w) = cc (Wraps-closed_pipe w)
external_surfaces (surfaces n) = refl

closed : (close toy_crypto toy_lz4 none reader).1 ≡ ok (some (Error.external 5))
closed =
    let (_, (e, is, h)) =
      read_all-encrypt toy_crypto toy_lz4 buffer toy_rand o inp [] none (some (Error.external 5))
        (record { number = 0; minor_is = refl; in_range = omega arith }) no_compression
        (omega arith) random-IsByte refl encrypted in
    h ∙ ap ok (external_surfaces is)

close-close_example :
    (close toy_crypto toy_lz4 (some 2) (close toy_crypto toy_lz4 none reader).0
      ≡ ((close toy_crypto toy_lz4 none reader).0, ok (some (Error.external 5))))
    × ((close toy_crypto toy_lz4 none reader).0.extra_closes ≤ reader.extra_closes + 1)
close-close_example =
    close-close toy_crypto toy_lz4 none (some 2) reader (some (Error.external 5)) closed

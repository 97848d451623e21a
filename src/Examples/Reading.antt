-- ===== src/Examples/Reading.antt =====
-- `decryptPipe` at a concrete input.
use cloudsync_decrypt_go.Common.{ℕ, refl, List, [], ◌∷◌, All, replicate}
use cloudsync_decrypt_go.Common.{arith}
use cloudsync_decrypt_go.Common.Action.{◌>>◌}
use cloudsync_decrypt_go.Io.{buffer}
use cloudsync_decrypt_go.Padding.{pkcs7_pad}
use cloudsync_decrypt_go.Pipeline.Sink.{IsChunk}
use cloudsync_decrypt_go.Payload.{Plain, finish}
use cloudsync_decrypt_go.Payload.Direct.{Completes, feed_blocks, waiting_pipe}
use cloudsync_decrypt_go.Payload.Plaintext.{finish-feed_blocks}
use cloudsync_decrypt_go.Examples.Toy.{toy_crypto, toy_lz4}

abbrev sink : Plain (List ℕ)
sink = record { out = 1 ∷ []; md5 = [] }

-- Twenty bytes 0xa4, encrypted and cut into two blocks.
abbrev blocks : List (List ℕ)
blocks =
    replicate 16 0xa5
    ∷ (0xa5 ∷ 0xa5 ∷ 0xa5 ∷ 0xa5 ∷ 13 ∷ 13 ∷ 13 ∷ 13 ∷ 13 ∷ 13 ∷ 13 ∷ 13 ∷ 13 ∷ 13 ∷ 13 ∷ 13 ∷ [])
    ∷ []

blocks-IsChunk : All IsChunk blocks
blocks-IsChunk = (
  record { nonempty = omega arith; aligned = refl; fits = omega arith },
  (record { nonempty = omega arith; aligned = refl; fits = omega arith }, tt),
)

finish-feed_blocks_example :
    Completes buffer toy_crypto toy_lz4
      (λ w b. refl)
      []
      sink
      (replicate 20 0xa4)
      ((feed_blocks buffer toy_crypto toy_lz4 (λ w b. refl) [] blocks
          >> finish buffer toy_crypto toy_lz4)
        (waiting_pipe buffer toy_crypto toy_lz4 (λ w b. refl) [] sink))
unfolding pkcs7_pad
finish-feed_blocks_example =
    finish-feed_blocks buffer toy_crypto toy_lz4 (λ w b. refl) [] [] (replicate 20 0xa4) blocks sink
      blocks-IsChunk refl

-- ===== src/Io.antt =====
-- Go's `io.Writer`, which the library is handed: its states, what `Write` does, and the bytes that
-- have arrived. The law is the contract of the interface: a `Write` that returns no error has
-- written the whole slice. Only the error of a `Write` is kept, as the program drops the count.
use cloudsync_decrypt_go.Common.{ℕ, ◌≡◌, refl, List, ◌++◌, Option, none, Error}

pub record Out : Type 1 where
  pub W : Type 0
  pub write : W → List ℕ → W × Option Error
  pub written : W → List ℕ
  pub write-written :
      (w : W) (b : List ℕ) → (write w b).1 ≡ none → written (write w b).0 ≡ written w ++ b

-- `bytes.Buffer`
abbrev pub buffer : Out
buffer = record {
  W = List ℕ;
  write = λ w b. (w ++ b, none);
  written = λ w. w;
  write-written = λ w b h. refl;
}

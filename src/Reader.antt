-- ===== src/Reader.antt =====
-- csenc/reader.go, with `OpenFile` of csenc/file.go: the pipe between the goroutine that runs `Decrypt`
-- and a consumer that takes a number of bytes and closes, or reads to the end. A `Write` to the pipe
-- returns only when the consumer has taken all of it or has closed, so what the goroutine does is a
-- function of how many bytes the consumer takes.
pub mod Stream
use cloudsync_decrypt_go.Common.{
  ℕ, suc, ◌+◌, ◌-◌, ◌≡◌, refl, Bool, true, false, ◌&&◌, Bool-cases, inl, inr, List, [], ◌∷◌, ◌++◌,
  Option, none, some, Error, eof, closed_pipe, Result, ok, err, out_of_fuel, ltb, leb, length, take,
  if◌then◌else◌,
}
use cloudsync_decrypt_go.Io.{Out}
use cloudsync_decrypt_go.Wire.{Source}
use cloudsync_decrypt_go.Crypto.{Crypto}
use cloudsync_decrypt_go.Lz4.{Lz4}
use cloudsync_decrypt_go.Os.{Os, FilePath}
use cloudsync_decrypt_go.Metadata.{Metadata}
use cloudsync_decrypt_go.Recover.{Options}
use cloudsync_decrypt_go.Decrypt.{State, decrypt, current}

-- `errors.Is(err, io.ErrClosedPipe)`: at the end of the chain of wrapped errors.
abbrev pub is_closed_pipe : Error → Bool
is_closed_pipe closed_pipe = true
is_closed_pipe (Error.read_magic e) = is_closed_pipe e
is_closed_pipe (Error.read_magic_checksum e) = is_closed_pipe e
is_closed_pipe (Error.in_field b e) = is_closed_pipe e
is_closed_pipe (Error.key1_padding e) = is_closed_pipe e
is_closed_pipe (Error.rsa_failed e) = is_closed_pipe e
is_closed_pipe (Error.session_not_hex e) = is_closed_pipe e
is_closed_pipe (Error.final_padding e) = is_closed_pipe e
is_closed_pipe (Error.random_session_key e) = is_closed_pipe e
is_closed_pipe (Error.bad_pem_passphrase e) = is_closed_pipe e
is_closed_pipe (Error.password_file e) = is_closed_pipe e
is_closed_pipe (Error.private_key_file e) = is_closed_pipe e
is_closed_pipe (Error.public_key_file e) = is_closed_pipe e
is_closed_pipe (Error.version_major e) = is_closed_pipe e
is_closed_pipe (Error.version_minor e) = is_closed_pipe e
is_closed_pipe _ = false

-- Whether the consumer, who closes behind so many bytes, takes a slice whole; `none` never closes.
abbrev pub takes_whole : Option ℕ → List ℕ → List ℕ → Bool
takes_whole none taken b = true
takes_whole (some k) taken b = ltb (length taken) k && leb (length taken + length b) k

abbrev pub taken_of : Option ℕ → List ℕ → List ℕ → List ℕ
taken_of none taken b = b
taken_of (some k) taken b = take (k - length taken) b

unfoldable pub pipe_write : Option ℕ → List ℕ → List ℕ → List ℕ × Option Error
pipe_write limit taken b =
    if takes_whole limit taken b
    then (taken ++ b, none)
    else (taken ++ taken_of limit taken b, some closed_pipe)

pub pipe_write-written :
    (limit : Option ℕ) (taken b : List ℕ)
    → (pipe_write limit taken b).1 ≡ none
    → (pipe_write limit taken b).0 ≡ taken ++ b
unfolding pipe_write
pipe_write-written limit taken b h = elim (Bool-cases (takes_whole limit taken b)) [
  | inl e ↦ rw (pipe_write, e)
  | inr e ↦ absurd (failed (rw (pipe_write, e) at h))
]
  where
    failed : {e : Error} → ◌≡◌ {A = Option Error} (some e) none → ⊥
    failed k = cc

-- The end of the pipe that `Decrypt` writes to: the bytes that the consumer has taken.
abbrev pub pipe_out : Option ℕ → Out
pipe_out limit = record {
  W = List ℕ;
  write = pipe_write limit;
  written = λ taken. taken;
  write-written = pipe_write-written limit;
}

-- `pw.CloseWithError(err)`: what a read at the end returns.
abbrev pub end_of : Result (Unit {0}) → Result Error
end_of (ok u) = ok eof
end_of (err e) = ok e
end_of out_of_fuel = out_of_fuel

-- What `<-r.doneCh` gives, together with the error of `extraClose`.
abbrev pub merge_close : Result (Unit {0}) → Option Error → Result (Option Error)
merge_close (ok u) extra = ok extra
merge_close (err e) extra = ok (some e)
merge_close out_of_fuel extra = out_of_fuel

abbrev pub suppress : Option Error → Option Error
suppress none = none
suppress (some e) = if is_closed_pipe e then none else some e

abbrev pub last_of : {A : Type 0} → List A → Option A
last_of [] = none
last_of (a ∷ []) = some a
last_of (a ∷ b ∷ bs) = last_of (b ∷ bs)

-- `Reader`: the stream behind it, what `extraClose` is and returns, how often that was called, and
-- the result of the first `Close`, if there was one.
pub record Reader (K : Type 0) : Type 0 where
  pub input : Source
  pub opts : Options K
  pub extra_close : Option (Option Error)
  pub extra_closes : ℕ
  pub closed : Option (Option Error)

module _ {K : Type 0} where
  unfoldable pub new_reader : Source → Options K → Reader K
  new_reader inp o = record {
    input = inp;
    opts = o;
    extra_close = none;
    extra_closes = 0;
    closed = none;
  }

  -- The closer is given by what its `Close` returns.
  unfoldable pub new_reader_with_closer : Source → Option Error → Options K → Reader K
  new_reader_with_closer inp extra o = record (new_reader inp o) { extra_close = some extra }

  unfoldable pub open_reader :
      (S : Os) → S.Fs → FilePath → Option Error → Options K → Result (Reader K)
  open_reader S fs path extra o = elim (S.open_file fs path) [
    | inl e ↦ err e
    | inr f ↦ ok (new_reader_with_closer f extra o)
  ]

module _ (C : Crypto) (L : Lz4) where
  open C use {PrivateKey}

  -- The goroutine, with a consumer that closes behind so many bytes.
  unfoldable pub run : Option ℕ → Reader PrivateKey → State (pipe_out none) C L × Result (Unit {0})
  run limit r = decrypt (pipe_out limit) C L r.input [] r.opts

  -- Reading to the end: the bytes, and what the last read returns.
  unfoldable pub read_all : Reader PrivateKey → List ℕ × Result Error
  read_all r = let done = run none r in ((current (pipe_out none) C L done.0).out, end_of done.1)

  -- The bytes of the reads up to a number of them.
  unfoldable pub read_up_to : ℕ → Reader PrivateKey → List ℕ
  read_up_to k r = (current (pipe_out (some k)) C L (run (some k) r).0).out

  -- `Metadata` behind the last byte that was read.
  unfoldable pub metadata : Option ℕ → Reader PrivateKey → Option Metadata
  metadata limit r = last_of (run limit r).0.announced

  abbrev pub extra_error : Option (Option Error) → Option Error
  extra_error none = none
  extra_error (some e) = e

  abbrev pub extra_count : Option (Option Error) → ℕ
  extra_count none = 0
  extra_count (some e) = 1

  abbrev pub set_closed :
      Reader PrivateKey → Result (Option Error) → Reader PrivateKey × Result (Option Error)
  set_closed r (ok e) = (
    record r {
      closed = some (suppress e);
      extra_closes = r.extra_closes + extra_count r.extra_close;
    },
    ok (suppress e),
  )
  set_closed r (err e) = (r, err e)
  set_closed r out_of_fuel = (r, out_of_fuel)

  -- `Close` behind so many bytes, under `sync.Once`.
  abbrev pub close_once :
      Option ℕ
      → Reader PrivateKey
      → Option (Option Error)
      → Reader PrivateKey × Result (Option Error)
  close_once limit r (some e) = (r, ok e)
  close_once limit r none = set_closed r (merge_close (run limit r).1 (extra_error r.extra_close))

  unfoldable pub close : Option ℕ → Reader PrivateKey → Reader PrivateKey × Result (Option Error)
  close limit r = close_once limit r r.closed

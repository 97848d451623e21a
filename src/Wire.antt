-- ===== src/Wire.antt =====
-- csenc/wire.go: the object stream. A reader is the bytes that it has still to deliver and the error
-- that it ends with (`eof` at a clean end), which is all that `io.ReadFull` can observe of it.
-- `readOne` recurs on what a call leaves of the input, so it takes fuel; `fuel_for` is what it is
-- given: two units for each byte that is left.
pub mod Total
pub mod Emit
pub mod RoundTrip
pub mod Truncation
use cloudsync_decrypt_go.Common.{ℕ, zero, suc, ◌+◌, ◌*◌, Bool, true, false, List, [], ◌∷◌}
use cloudsync_decrypt_go.Common.{
  Option, none, some, ◌==◌, leb, eqb, if◌then◌else◌, length, take, drop,
}
use cloudsync_decrypt_go.Common.{Error, eof, unexpected_eof, dict_key_with_no_value, unknown_tag}
use cloudsync_decrypt_go.Common.{is_eof, Result, ok, err, out_of_fuel, ◌>>=◌}

-- A `Value` of Go with the fields that its `Kind` gives a meaning to.
mutual
  pub data Value : Type 0 where
    nil : Value
    dict : Members → Value
    bytes : List ℕ → Value
    str : List ℕ → Value
    int : ℕ → Value

  pub data Members : Type 0 where
    no_members : Members
    member : Value → Value → Members → Members

abbrev pub tag_end : ℕ
tag_end = 0x40

abbrev pub tag_dict : ℕ
tag_dict = 0x42

abbrev pub tag_bytes : ℕ
tag_bytes = 0x11

abbrev pub tag_string : ℕ
tag_string = 0x10

abbrev pub tag_int : ℕ
tag_int = 0x01

-- `k.Kind == KindString && k.Str == name`
abbrev pub is_key : Value → List ℕ → Bool
is_key (str s) name = eqb s name
is_key _ name = false

unfoldable pub lookup_members : Members → List ℕ → Option Value
lookup_members no_members name = none
lookup_members (member k v ms) name = if is_key k name then some v else lookup_members ms name

unfoldable pub lookup : Value → List ℕ → Option Value
lookup (dict ms) name = lookup_members ms name
lookup _ name = none

pub record Source : Type 0 where
  pub bytes : List ℕ
  pub fin : Error

-- What `io.ReadFull` returns when the reader ends early.
abbrev pub short_read : Source → Error
short_read s = if is_eof s.fin then (if length s.bytes == 0 then eof else unexpected_eof) else s.fin

unfoldable pub read_full : ℕ → Source → Result (List ℕ × Source)
read_full n s =
    if leb n (length s.bytes)
    then ok (take n s.bytes, record s { bytes = drop n s.bytes })
    else err (short_read s)

-- `buf[0]` of a buffer that is not empty.
abbrev pub first : List ℕ → ℕ
first [] = 0
first (b ∷ bs) = b

-- `binary.BigEndian`: the number that some bytes spell, highest first.
abbrev pub big_endian : ℕ → List ℕ → ℕ
big_endian acc [] = acc
big_endian acc (b ∷ bs) = big_endian (acc * 256 + b) bs

unfoldable pub read_short_blob : Source → Result (List ℕ × Source)
read_short_blob s = do
  (len_buf, s) ← read_full 2 s
  let n = big_endian 0 len_buf
  if n == 0 then ok ([], s) else read_full n s

-- A short blob as a value: the cases `tagBytes` and `tagString` of `readOne`.
unfoldable pub read_blob : (List ℕ → Value) → Source → Result (Value × Bool × Source)
read_blob kind s = do (b, s) ← read_short_blob s; ok (kind b, false, s)

-- The case `tagInt`.
unfoldable pub read_int : Source → Result (Value × Bool × Source)
read_int s = do
  (size, s) ← read_full 1 s
  (digits, s) ← read_full (first size) s
  ok (int (big_endian 0 digits), false, s)

-- The cases of `readOne` that make no recursive call.
unfoldable pub read_scalar : ℕ → Source → Result (Value × Bool × Source)
read_scalar tag s =
    if tag == tag_bytes
    then read_blob Value.bytes s
    else if tag == tag_string
    then read_blob str s
    else if tag == tag_int
    then read_int s
    else err (unknown_tag tag)

-- The Boolean is Go's `term`: the value was the terminator of a dict.
unfoldable mutual
  pub read_one : ℕ → Source → Result (Value × Bool × Source)
  read_one zero s = out_of_fuel
  read_one (suc f) s = do
    (head, s) ← read_full 1 s
    let members : Result (Value × Bool × Source) = do
      (ms, s) ← read_members f s
      ok (dict ms, false, s)
    if first head == tag_end
        then ok (nil, true, s)
        else if first head == tag_dict
        then members
        else read_scalar (first head) s

  -- The loop of the dict case, from one key to the terminator.
  pub read_members : ℕ → Source → Result (Members × Source)
  read_members zero s = out_of_fuel
  read_members (suc f) s = do
    (key, term, s) ← read_one f s
    let more : Result (Members × Source) = do
      (val, term_v, s) ← read_one f s
      let rest : Result (Members × Source) = do
        (ms, s) ← read_members f s
        ok (member key val ms, s)
      if term_v then err dict_key_with_no_value else rest
    if term then ok (no_members, s) else more

abbrev pub fuel_for : Source → ℕ
fuel_for s = suc (2 * length s.bytes)

-- What `Next` makes of a result of `readOne`; `none` is ok = false with no error.
abbrev pub next_outcome : Result (Value × Bool × Source) → Result (Option (Value × Source))
next_outcome (ok (v, term, s)) = if term then ok none else ok (some (v, s))
next_outcome (err e) = if is_eof e then ok none else err e
next_outcome out_of_fuel = out_of_fuel

unfoldable pub next : Source → Result (Option (Value × Source))
next s = next_outcome (read_one (fuel_for s) s)

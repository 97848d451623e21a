-- ===== src/Wire/RoundTrip.antt =====
-- csenc/wire.go reads back the byte form of every value that has one, whatever follows it.
use cloudsync_decrypt_go.Common.{
  ℕ, zero, suc, ◌+◌, ◌*◌, ◌^◌, ◌<◌, ◌≡◌, refl, ◌∙◌, true, false, List, [], ◌∷◌, ◌++◌,
}
use cloudsync_decrypt_go.Common.{
  none, some, arith, ◌==◌, le→leb, length, length-append, take_seam, drop_seam, append_assoc,
  Bool-cases, inl, inr, ==_iff, length_zero,
}
use cloudsync_decrypt_go.Common.{Error, eof, ok}
use cloudsync_decrypt_go.Wire.{
  Value, Members, nil, dict, bytes, str, int, no_members, member, Source, big_endian,
}
use cloudsync_decrypt_go.Wire.{
  read_full, read_short_blob, read_blob, read_int, read_scalar, read_one, read_members, fuel_for,
  next,
}
use cloudsync_decrypt_go.Wire.{tag_end, tag_dict, tag_string, tag_bytes, tag_int}
use cloudsync_decrypt_go.Wire.Emit.{
  put_uint16, int_body, int_body_shape, blob, emit, emit_members, Fits, FitsMembers,
  length-emit_pos,
}

-- A reader that has these bytes still to deliver.
abbrev pub source : List ℕ → Error → Source
source b e = record { bytes = b; fin = e }

pub read_full-append :
    (n : ℕ) (b rest : List ℕ) (e : Error)
    → n ≡ length b
    → read_full n (source (b ++ rest) e) ≡ ok (b, source rest e)
unfolding read_full
read_full-append n b rest e h = rw (
  le→leb n (length (b ++ rest)) (omega (arith, length-append b rest)),
  take_seam n b rest h,
  drop_seam n b rest h,
)

read_short_blob-blob :
    (b rest : List ℕ) (e : Error)
    → length b < 65536
    → read_short_blob (source (blob b ++ rest) e) ≡ ok (b, source rest e)
unfolding read_short_blob
read_short_blob-blob b rest e h =
    rw (read_full-append 2 (put_uint16 (length b)) (b ++ rest) e refl, size)
      (elim (Bool-cases (length b == 0)) [
        | inl z ↦ rw (z, length_zero b ((==_iff (length b) 0).0 z)) refl
        | inr z ↦ rw z (read_full-append (length b) b rest e refl)
      ])
  where
    size : big_endian 0 (put_uint16 (length b)) ≡ length b
    size = omega arith

read_int-digits :
    (ds rest : List ℕ) (e : Error)
    → read_int (source ((length ds ∷ ds) ++ rest) e)
      ≡ ok (int (big_endian 0 ds), false, source rest e)
unfolding read_int
read_int-digits ds rest e = rw (
  read_full-append 1 (length ds ∷ []) (ds ++ rest) e refl,
  read_full-append (length ds) ds rest e refl,
)

read_int-int_body :
    (n : ℕ) (rest : List ℕ) (e : Error)
    → n < 2 ^ 64
    → read_int (source (int_body n ++ rest) e) ≡ ok (int n, false, source rest e)
read_int-int_body n rest e h =
    let (ds, shape, spells) = int_body_shape n h in rw shape (read_int-digits ds rest e ∙ rw spells)

-- With more fuel than twice its byte form, a value is read off the front of any reader.
abbrev pub Reads : Value → Type 0
Reads v =
    Fits v
    → (rest : List ℕ) (e : Error) (f : ℕ) → 2 * length (emit v) < f
    → read_one f (source (emit v ++ rest) e) ≡ ok (v, false, source rest e)

abbrev pub ReadsMembers : Members → Type 0
ReadsMembers ms =
    FitsMembers ms
    → (rest : List ℕ) (e : Error) (f : ℕ) → suc (2 * length (emit_members ms)) < f
    → read_members f (source (emit_members ms ++ rest) e) ≡ ok (ms, source rest e)

-- The first byte is the tag.
read_one_tag :
    (f tag : ℕ) (rest : List ℕ) (e : Error)
    → (tag == tag_end) ≡ false
    → (tag == tag_dict) ≡ false
    → read_one (suc f) (source (tag ∷ rest) e) ≡ read_scalar tag (source rest e)
unfolding read_one
read_one_tag f tag rest e p q = rw (read_full-append 1 (tag ∷ []) rest e refl, p, q)

read_one_end :
    (f : ℕ) (rest : List ℕ) (e : Error)
    → read_one (suc f) (source (tag_end ∷ rest) e) ≡ ok (nil, true, source rest e)
unfolding read_one
read_one_end f rest e = rw (read_full-append 1 (tag_end ∷ []) rest e refl)

read_one_dict :
    (f : ℕ) (rest rest' : List ℕ) (e : Error) (ms : Members)
    → read_members f (source rest e) ≡ ok (ms, source rest' e)
    → read_one (suc f) (source (tag_dict ∷ rest) e) ≡ ok (dict ms, false, source rest' e)
unfolding read_one
read_one_dict f rest rest' e ms h = rw (read_full-append 1 (tag_dict ∷ []) rest e refl, h)

read_members_end :
    (f : ℕ) (rest : List ℕ) (e : Error)
    → read_members (suc (suc f)) (source (tag_end ∷ rest) e) ≡ ok (no_members, source rest e)
unfolding read_members
read_members_end f rest e = rw (read_one_end f rest e)

read_members_more :
    (f : ℕ) (s t u w : Source) (k v : Value) (ms : Members)
    → read_one f s ≡ ok (k, false, t)
    → read_one f t ≡ ok (v, false, u)
    → read_members f u ≡ ok (ms, w)
    → read_members (suc f) s ≡ ok (member k v ms, w)
unfolding read_members
read_members_more f s t u w k v ms hk hv hms = rw (hk, hv, hms)

length-value_bytes : (xs ys : List ℕ) → length (xs ++ ys) ≡ length xs + length ys
length-value_bytes = length-append

ruleset sizes = (arith, length-value_bytes)

-- The three scalar cases.
module _ (f : ℕ) (rest : List ℕ) (e : Error) where
  read_one-bytes :
      (b : List ℕ)
      → length b < 65536
      → read_one (suc f) (source ((tag_bytes ∷ blob b) ++ rest) e)
        ≡ ok (bytes b, false, source rest e)
  unfolding read_scalar read_blob
  read_one-bytes b h =
      rw (read_one_tag f tag_bytes (blob b ++ rest) e refl refl, read_short_blob-blob b rest e h)

  read_one-str :
      (b : List ℕ)
      → length b < 65536
      → read_one (suc f) (source ((tag_string ∷ blob b) ++ rest) e)
        ≡ ok (str b, false, source rest e)
  unfolding read_scalar read_blob
  read_one-str b h =
      rw (read_one_tag f tag_string (blob b ++ rest) e refl refl, read_short_blob-blob b rest e h)

  read_one-int :
      (n : ℕ)
      → n < 2 ^ 64
      → read_one (suc f) (source ((tag_int ∷ int_body n) ++ rest) e)
        ≡ ok (int n, false, source rest e)
  unfolding read_scalar
  read_one-int n h =
      read_one_tag f tag_int (int_body n ++ rest) e refl refl ∙ read_int-int_body n rest e h

mutual
  unfolding emit Fits

  pub read_one-Reads : (v : Value) → Reads v
  read_one-Reads nil h rest e f hf = absurd h
  read_one-Reads v h rest e zero hf = absurd (omega arith)
  read_one-Reads (dict ms) h rest e (suc f) hf =
      read_one_dict f _ rest e ms (read_members-Reads ms h rest e f (omega arith))
  read_one-Reads (bytes b) h rest e (suc f) hf = read_one-bytes f rest e b h
  read_one-Reads (str b) h rest e (suc f) hf = read_one-str f rest e b h
  read_one-Reads (int n) h rest e (suc f) hf = read_one-int f rest e n h

  pub read_members-Reads : (ms : Members) → ReadsMembers ms
  read_members-Reads no_members h rest e zero hf = absurd (omega arith)
  read_members-Reads no_members h rest e (suc zero) hf = absurd (omega arith)
  read_members-Reads no_members h rest e (suc (suc f)) hf = read_members_end f rest e
  read_members-Reads (member k v ms) h rest e zero hf = absurd (omega arith)
  read_members-Reads (member k v ms) h rest e (suc f) hf =
      rw
        (
          append_assoc (emit k) (emit v ++ emit_members ms) rest,
          append_assoc (emit v) (emit_members ms) rest,
        )
        (read_members_more f _ _ _ _ k v ms
          (read_one-Reads k h.0 (emit v ++ (emit_members ms ++ rest)) e f (omega sizes))
          (read_one-Reads v h.1 (emit_members ms ++ rest) e f (omega (sizes, length-emit_pos k)))
          (read_members-Reads ms h.2 rest e f
            (omega (sizes, length-emit_pos k, length-emit_pos v))))

-- `readOne` reads back every value that has a byte form, at any nesting, and leaves what follows it.
pub read_one-emit :
    (v : Value)
    → Fits v
    → (rest : List ℕ) (e : Error)
    → read_one (fuel_for (source (emit v ++ rest) e)) (source (emit v ++ rest) e)
      ≡ ok (v, false, source rest e)
read_one-emit v h rest e = read_one-Reads v h rest e _ (omega sizes)

-- `Next` on the byte form of a value that has one yields that value and leaves exactly what follows it.
pub next-emit :
    (v : Value)
    → Fits v
    → (rest : List ℕ) (e : Error) → next (source (emit v ++ rest) e) ≡ ok (some (v, source rest e))
unfolding next
next-emit v h rest e = rw (read_one-emit v h rest e)

-- The stream is over at a clean end of the reader, and at a bare terminator.
pub next_at_eof : next (source [] eof) ≡ ok none
unfolding next read_one read_full
next_at_eof = refl

pub next_at_end_tag : (rest : List ℕ) (e : Error) → next (source (tag_end ∷ rest) e) ≡ ok none
unfolding next
next_at_end_tag rest e = rw (read_one_end (2 * suc (length rest)) rest e)

-- No two values have the same byte form.
pub emit-injective : (v w : Value) → Fits v → Fits w → emit v ≡ emit w → v ≡ w
emit-injective v w hv hw p =
    let shared : next (source (emit v ++ []) eof) ≡ next (source (emit w ++ []) eof) = rw p in
    cc (next-emit v hv [] eof, next-emit w hw [] eof, shared)

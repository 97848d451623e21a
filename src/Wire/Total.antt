-- ===== src/Wire/Total.antt =====
-- csenc/wire.go: the fuel of `read_one` is enough on every input, and every value takes bytes.
use cloudsync_decrypt_go.Common.{ℕ, zero, suc, ◌+◌, ◌*◌, ◌≤◌, ◌<◌, ◌≡◌, refl, ◌≢◌, Bool, List}
use cloudsync_decrypt_go.Common.{
  Option, none, some, arith, ◌==◌, leb, length, length-drop, ◌∙◌, Bool-cases, inl, inr, leb→le,
  is_eof,
}
use cloudsync_decrypt_go.Common.{
  Result, out_of_fuel, Post, value, failure, Post-ne, Post-if, Post-map, Post-bind,
}
use cloudsync_decrypt_go.Wire.{
  Value, Source, read_full, read_short_blob, read_blob, read_int, read_scalar,
}
use cloudsync_decrypt_go.Wire.{
  read_one, read_members, fuel_for, first, big_endian, next, next_outcome,
}
use cloudsync_decrypt_go.Wire.{tag_end, tag_dict, tag_string, tag_bytes, tag_int}

-- `s'` is `s` with `n` bytes read at least.
pub record Past (n : ℕ) (s s' : Source) : Type 0 where
  pub taken : length s'.bytes + n ≤ length s.bytes
  pub same_fin : s'.fin ≡ s.fin

read_full-Post : (n : ℕ) (s : Source) → Post (λ (b, s'). Past n s s') (read_full n s)
unfolding read_full
read_full-Post n s = elim (Bool-cases (leb n (length s.bytes))) [
  | inl h ↦ rw h (
      value (record {
        taken = omega (arith, leb→le n (length s.bytes) h, length-drop n s.bytes);
        same_fin = refl;
      }))
  | inr h ↦ rw h failure
]

-- Two reads after one another.
Past-trans : {n m : ℕ} {s t u : Source} → Past n s t → Past m t u → Past (n + m) s u
Past-trans p q = record { taken = omega arith; same_fin = q.same_fin ∙ p.same_fin }

Past-less : {n m : ℕ} {s t : Source} → m ≤ n → Past n s t → Past m s t
Past-less h p = record { taken = omega arith; same_fin = p.same_fin }

read_short_blob-Post : (s : Source) → Post (λ (b, s'). Past 2 s s') (read_short_blob s)
unfolding read_short_blob
read_short_blob-Post s = Post-bind (read_full-Post 2 s) λ (len, t) p.
    Post-if (big_endian 0 len == 0) (value p) (
      Post-map (read_full-Post (big_endian 0 len) t)
        λ (b, u) q. value (Past-less (omega arith) (Past-trans p q)))

read_blob-Post :
    (kind : List ℕ → Value) (s : Source) → Post (λ (v, term, s'). Past 1 s s') (read_blob kind s)
unfolding read_blob
read_blob-Post kind s =
    Post-bind (read_short_blob-Post s) λ (b, t) p. value (Past-less (omega arith) p)

read_int-Post : (s : Source) → Post (λ (v, term, s'). Past 1 s s') (read_int s)
unfolding read_int
read_int-Post s = Post-bind (read_full-Post 1 s) λ (size, t) p.
    Post-bind (read_full-Post (first size) t)
      λ (digits, u) q. value (Past-less (omega arith) (Past-trans p q))

read_scalar-Post : (tag : ℕ) (s : Source) → Post (λ (v, term, s'). Past 1 s s') (read_scalar tag s)
unfolding read_scalar
read_scalar-Post tag s = Post-if (tag == tag_bytes) (read_blob-Post _ s) (
    Post-if (tag == tag_string) (read_blob-Post _ s)
      (Post-if (tag == tag_int) (read_int-Post s) failure))

-- One induction on the fuel, which stays above twice the bytes that are left.
mutual
  unfolding read_one

  read_one-Post :
      (f : ℕ) (s : Source)
      → 2 * length s.bytes < f
      → Post (λ (v, term, s'). Past 1 s s') (read_one f s)
  read_one-Post zero s h = absurd (omega arith)
  read_one-Post (suc f) s h = Post-bind (read_full-Post 1 s) λ (head, t) p.
      Post-if (first head == tag_end) (value p) (
        Post-if (first head == tag_dict)
          (Post-bind (read_members-Post f t (omega arith))
            λ (ms, u) q. value (Past-less (omega arith) (Past-trans p q)))
          (Post-map (read_scalar-Post (first head) t)
            λ (v, term, u) q. value (Past-less (omega arith) (Past-trans p q))))

  read_members-Post :
      (f : ℕ) (s : Source)
      → suc (2 * length s.bytes) < f
      → Post (λ (ms, s'). Past 1 s s') (read_members f s)
  read_members-Post zero s h = absurd (omega arith)
  read_members-Post (suc f) s h = Post-bind (read_one-Post f s (omega arith)) λ (key, term, t) p.
      Post-if term (value p) (
        Post-bind (read_one-Post f t (omega arith)) λ (val, term_v, u) q. Post-if term_v failure (
          Post-bind (read_members-Post f u (omega arith))
            λ (ms, w) r. value (Past-less (omega arith) (Past-trans p (Past-trans q r)))))

-- `readOne` ends on every reader: the fuel that `Next` hands out is never used up, and a value that
-- was read took at least one byte and left the reader's final error as it was.
pub read_one_total : (s : Source) → Post (λ (v, term, s'). Past 1 s s') (read_one (fuel_for s) s)
read_one_total s = read_one-Post (fuel_for s) s (omega arith)

-- What `Next` promises its caller.
abbrev pub NextPost : Source → Option (Value × Source) → Type 0
NextPost s none = Unit {0}
NextPost s (some (v, s')) = Past 1 s s'

pub next-Post : (s : Source) → Post (NextPost s) (next s)
unfolding next
next-Post s = outcome (read_one-Post (fuel_for s) s (omega arith))
  where
    outcome :
        {r : Result (Value × Bool × Source)}
        → Post (λ (v, term, s'). Past 1 s s') r
        → Post (NextPost s) (next_outcome r)
    outcome (value {a} h) = elim (Bool-cases a.1) [
      | inl e ↦ rw e (value tt)
      | inr e ↦ rw e (value h)
    ]
    outcome (failure {e}) = elim (Bool-cases (is_eof e)) [
      | inl h ↦ rw h (value tt)
      | inr h ↦ rw h failure
    ]

-- `Next` returns on every reader.
pub next-ne-out_of_fuel : (s : Source) → next s ≢ out_of_fuel
next-ne-out_of_fuel s = Post-ne (next-Post s)

-- ===== src/Wire/Truncation.antt =====
-- csenc/wire.go on a stream that was cut inside a dict.
use cloudsync_decrypt_go.Common.{ℕ, zero, suc, ◌+◌, ◌*◌, ◌<◌, ◌≡◌, refl, false, List, [], ◌∷◌, ◌++◌}
use cloudsync_decrypt_go.Common.{none, arith, length, length-append}
use cloudsync_decrypt_go.Common.{eof, ok, err}
use cloudsync_decrypt_go.Wire.{
  Value, Members, no_members, member, Source, read_full, read_one, read_members, next, tag_dict,
}
use cloudsync_decrypt_go.Wire.Emit.{emit, FitsMembers, length-emit_pos}
use cloudsync_decrypt_go.Wire.RoundTrip.{source, read_full-append, read_one-Reads}

-- The members of a dict without the terminator that closes it.
unfoldable pub emit_open : Members → List ℕ
emit_open no_members = []
emit_open (member k v ms) = emit k ++ (emit v ++ emit_open ms)

length-open_bytes : (xs ys : List ℕ) → length (xs ++ ys) ≡ length xs + length ys
length-open_bytes = length-append

ruleset sizes = (arith, length-open_bytes)

read_one-empty : (f : ℕ) → read_one (suc f) (source [] eof) ≡ err eof
unfolding read_one read_full
read_one-empty f = refl

read_members_step :
    (f : ℕ) (s t u : Source) (k v : Value)
    → read_one f s ≡ ok (k, false, t)
    → read_one f t ≡ ok (v, false, u)
    → read_members f u ≡ err eof
    → read_members (suc f) s ≡ err eof
unfolding read_members
read_members_step f s t u k v hk hv hms = rw (hk, hv, hms)

read_members-open :
    (ms : Members) (f : ℕ)
    → FitsMembers ms
    → suc (2 * length (emit_open ms)) < f
    → read_members f (source (emit_open ms) eof) ≡ err eof
unfolding emit_open FitsMembers
read_members-open no_members zero h hf = absurd (omega arith)
read_members-open no_members (suc zero) h hf = absurd (omega arith)
read_members-open no_members (suc (suc f)) h hf = unfold read_members in rw (read_one-empty f)
read_members-open (member k v ms) zero h hf = absurd (omega arith)
read_members-open (member k v ms) (suc f) h hf =
    read_members_step f _ _ _ k v
      (read_one-Reads k h.0 (emit v ++ emit_open ms) eof f (omega sizes))
      (read_one-Reads v h.1 (emit_open ms) eof f (omega (sizes, length-emit_pos k)))
      (read_members-open ms f h.2 (omega (sizes, length-emit_pos k, length-emit_pos v)))

read_one-open :
    (f : ℕ) (b : List ℕ)
    → read_members f (source b eof) ≡ err eof
    → read_one (suc f) (source (tag_dict ∷ b) eof) ≡ err eof
unfolding read_one
read_one-open f b h = rw (read_full-append 1 (tag_dict ∷ []) b eof refl, h)

-- A stream that ends inside a dict, behind any number of complete members (that have a byte form),
-- is reported by `Next` as one that ended cleanly: ok = false and no error.
pub next-emit_open :
    (ms : Members) → FitsMembers ms → next (source (tag_dict ∷ emit_open ms) eof) ≡ ok none
unfolding next
next-emit_open ms h = rw (
    read_one-open (2 * suc (length (emit_open ms))) (emit_open ms)
      (read_members-open ms _ h (omega arith)))

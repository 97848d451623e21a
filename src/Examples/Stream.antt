-- ===== src/Examples/Stream.antt =====
-- csenc/wire.go at concrete inputs.
use cloudsync_decrypt_go.Common.{
  ◌≡◌, refl, [], ◌∷◌, ◌++◌, some, none, codes, ok, err, arith, Post, eof, unexpected_eof,
  unknown_tag, dict_key_with_no_value,
}
use cloudsync_decrypt_go.Wire.{
  Members, Source, dict, bytes, str, int, no_members, member, read_one, read_full, read_short_blob,
  read_blob, read_int, read_scalar, next, fuel_for, tag_dict,
}
use cloudsync_decrypt_go.Wire.Emit.{emit, Fits, int_body, put_uint64, skip_zeros}
use cloudsync_decrypt_go.Wire.Total.{Past, read_one_total}
use cloudsync_decrypt_go.Wire.RoundTrip.{source, next-emit}
use cloudsync_decrypt_go.Wire.Truncation.{emit_open, next-emit_open}

abbrev sample_members : Members
sample_members = member (str (codes "type")) (str (codes "metadata")) (
    member (str (codes "n")) (int 515) (
      member (str (codes "in")) (dict (member (str (codes "b")) (bytes (7 ∷ 8 ∷ [])) no_members))
        no_members))

next-emit_example :
    next (source (emit (dict sample_members) ++ (1 ∷ [])) eof)
    ≡ ok (some (dict sample_members, source (1 ∷ []) eof))
unfolding Fits codes
next-emit_example = next-emit (dict sample_members) (omega arith) (1 ∷ []) eof

next-emit_open_example : next (source (tag_dict ∷ emit_open sample_members) eof) ≡ ok none
unfolding Fits codes
next-emit_open_example = next-emit_open sample_members (omega arith)

abbrev cut_blob : Source
cut_blob = source (0x11 ∷ 0 ∷ 5 ∷ 1 ∷ 2 ∷ []) eof

read_one_total_example :
    Post (λ (v, term, s'). Past 1 cut_blob s') (read_one (fuel_for cut_blob) cut_blob)
read_one_total_example = read_one_total cut_blob

-- A blob that is cut short is an error.
next-cut_blob : next cut_blob ≡ err unexpected_eof
unfolding next read_one read_full read_scalar read_blob read_short_blob
next-cut_blob = refl

next_unknown : next (source (0x77 ∷ []) eof) ≡ err (unknown_tag 0x77)
unfolding next read_one read_full read_scalar
next_unknown = refl

-- A terminator in the place of a value.
next_no_value : next (source (0x42 ∷ 0x01 ∷ 1 ∷ 9 ∷ 0x40 ∷ []) eof) ≡ err dict_key_with_no_value
unfolding next read_one read_full read_scalar read_int
next_no_value = refl

emit_515 : emit (int 515) ≡ 0x01 ∷ 2 ∷ 2 ∷ 3 ∷ []
unfolding emit int_body put_uint64 skip_zeros
emit_515 = refl

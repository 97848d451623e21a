-- ===== src/Pipeline/Sink.antt =====
-- What `pendingSink` has written and what it still holds, after any sequence of writes.
use cloudsync_decrypt_go.Common.{
  ℕ, zero, suc, ◌+◌, ◌%◌, ◌<◌, ◌≤◌, ◌≡◌, inl, inr, refl, sym, ap, ◌∙◌, true, false, List, [], ◌∷◌,
  ◌++◌, append_assoc, append-nil,
}
use cloudsync_decrypt_go.Common.{
  none, some, arith, ◌==◌, leb, leb→le, ==_iff, Bool-cases, length, take, drop, length-append,
  length-take, length-drop, take-append-drop, codes, Option-cases, All, All-append, concat,
  concat_snoc, length_zero, Error,
}
use cloudsync_decrypt_go.Wire.Emit.{emit, Fits}
use cloudsync_decrypt_go.Io.{Out}
use cloudsync_decrypt_go.Encoder.{write_data_dict}
use cloudsync_decrypt_go.Encoder.Emits.{Reliable}
use cloudsync_decrypt_go.Encoder.Dicts.{data_value, write_data_dict_lem}
use cloudsync_decrypt_go.Pipeline.{PendingSink, sink_loop, sink_write, sink_flush}

-- A chunk that the decoder accepts: some whole AES blocks.
pub record IsChunk (c : List ℕ) : Type 0 where
  pub nonempty : 0 < length c
  pub aligned : length c % 16 ≡ 0
  pub fits : length c < 65536

pub IsChunk-Fits : (c : List ℕ) → length c < 65536 → Fits (data_value c)
unfolding Fits data_value codes
IsChunk-Fits c h = omega arith

-- The data dicts of some chunks, one after the other.
unfoldable pub data_bytes : List (List ℕ) → List ℕ
data_bytes [] = []
data_bytes (c ∷ cs) = emit (data_value c) ++ data_bytes cs

data_bytes_snoc :
    (cs : List (List ℕ)) (c : List ℕ)
    → data_bytes (cs ++ (c ∷ [])) ≡ data_bytes cs ++ emit (data_value c)
unfolding data_bytes
data_bytes_snoc [] c = append-nil (emit (data_value c))
data_bytes_snoc (d ∷ cs) c =
    ap (λ (t : List ℕ). emit (data_value d) ++ t) (data_bytes_snoc cs c)
    ∙ sym (append_assoc (emit (data_value d)) (data_bytes cs) (emit (data_value c)))

length-buffered : (xs ys : List ℕ) → length (xs ++ ys) ≡ length xs + length ys
length-buffered = length-append

-- What is left behind whole chunks is as aligned as all of it.
pub rest_aligned :
    (cs : List (List ℕ)) (rest : List ℕ)
    → All IsChunk cs
    → length (concat cs ++ rest) % 16 ≡ 0
    → length rest % 16 ≡ 0
rest_aligned [] rest g h = h
rest_aligned (c ∷ cs) rest g h = rest_aligned cs rest g.1 (
    omega (
      arith,
      g.0.aligned,
      length-buffered c (concat cs ++ rest),
      ap (λ (t : List ℕ). length t) (append_assoc c (concat cs) rest),
      h,
    ))

module _ (O : Out) (base : List ℕ) where
  open O use {W, written}

  -- `total` is all that was given to the sink, and `chunks` what it has put out of it since the
  -- output was `base`.
  pub record SinkView (total : List ℕ) (s : PendingSink W) : Type 0 where
    pub chunks : List (List ℕ)
    pub good : All IsChunk chunks
    pub wrote : written s.out ≡ base ++ data_bytes chunks
    pub holds : concat chunks ++ s.buf ≡ total
    pub size_pos : 0 < s.chunk_size
    pub size_aligned : s.chunk_size % 16 ≡ 0
    pub size_fits : s.chunk_size < 65536

  -- One more chunk: the front of the buffer, written with no error.
  view_chunk :
      {total : List ℕ} {s : PendingSink W} (c rest : List ℕ)
      → SinkView total s
      → s.buf ≡ c ++ rest
      → IsChunk c
      → (write_data_dict O c s.out).1 ≡ none
      → SinkView total (record s { out = (write_data_dict O c s.out).0; buf = rest })
  view_chunk {total} {s} c rest v e k h = record {
    chunks = v.chunks ++ (c ∷ []);
    good = All-append IsChunk v.chunks (c ∷ []) v.good (k, tt);
    wrote =
        ((write_data_dict_lem O c s.out).0 h).1
        ∙ rw (v.wrote, data_bytes_snoc v.chunks c) (append_assoc base (data_bytes v.chunks) _);
    holds = rw (concat_snoc v.chunks c) (append_assoc (concat v.chunks) c rest ∙ rw (← e) v.holds);
    size_pos = v.size_pos;
    size_aligned = v.size_aligned;
    size_fits = v.size_fits;
  }

  sink_loop_end :
      (fuel : ℕ) (s : PendingSink W)
      → leb s.chunk_size (length s.buf) ≡ false
      → sink_loop O fuel s ≡ (s, none)
  unfolding sink_loop
  sink_loop_end zero s h = refl
  sink_loop_end (suc fuel) s h = rw h

  -- The state after one round.
  abbrev after_chunk : PendingSink W → PendingSink W
  after_chunk s = record s {
    out = (write_data_dict O (take s.chunk_size s.buf) s.out).0;
    buf = drop s.chunk_size s.buf;
  }

  sink_loop_round :
      (fuel : ℕ) (s : PendingSink W)
      → leb s.chunk_size (length s.buf) ≡ true
      → (write_data_dict O (take s.chunk_size s.buf) s.out).1 ≡ none
      → sink_loop O (suc fuel) s ≡ sink_loop O fuel (after_chunk s)
  unfolding sink_loop
  sink_loop_round fuel s h e = rw (h, e)

  sink_loop_error :
      (fuel : ℕ) (s : PendingSink W) (x : Error)
      → leb s.chunk_size (length s.buf) ≡ true
      → (write_data_dict O (take s.chunk_size s.buf) s.out).1 ≡ some x
      → (sink_loop O (suc fuel) s).1 ≡ some x
  unfolding sink_loop
  sink_loop_error fuel s x h e = rw (h, e)

  full-IsChunk :
      {total : List ℕ} {s : PendingSink W}
      → SinkView total s
      → s.chunk_size ≤ length s.buf
      → IsChunk (take s.chunk_size s.buf)
  full-IsChunk {s} v h =
      let n : length (take s.chunk_size s.buf) ≡ s.chunk_size =
        omega (arith, length-take s.chunk_size s.buf) in
      record { nonempty = rw n v.size_pos; aligned = rw n v.size_aligned; fits = rw n v.size_fits }

  -- With fuel for every byte the loop ends below one chunk, and keeps the view.
  sink_loop-View :
      (fuel : ℕ) (s : PendingSink W) (total : List ℕ)
      → length s.buf ≤ fuel
      → SinkView total s
      → (sink_loop O fuel s).1 ≡ none
      → SinkView total (sink_loop O fuel s).0
        × (length (sink_loop O fuel s).0.buf < (sink_loop O fuel s).0.chunk_size)
  sink_loop-View zero s total hf v h =
      let pos : 0 < s.chunk_size = v.size_pos in
      rw (sink_loop_end zero s (ground arith)) (v, omega arith)
  sink_loop-View (suc fuel) s total hf v h = elim (Bool-cases (leb s.chunk_size (length s.buf))) [
    | inr small ↦ rw (sink_loop_end (suc fuel) s small) (v, ground arith)
    | inl full ↦
        let le : s.chunk_size ≤ length s.buf = leb→le s.chunk_size (length s.buf) full in
        elim (Option-cases (write_data_dict O (take s.chunk_size s.buf) s.out).1) [
          | inr (x, e) ↦ absurd (cc (h, sink_loop_error fuel s x full e))
          | inl e ↦ rw (sink_loop_round fuel s full e) (
              sink_loop-View fuel (after_chunk s) total
                (omega (arith, length-drop s.chunk_size s.buf, v.size_pos))
                (view_chunk (take s.chunk_size s.buf) _ v
                  (sym (take-append-drop s.chunk_size s.buf)) (full-IsChunk v le) e)
                (rw (sink_loop_round fuel s full e) at h))
        ]
  ]

  sink_loop_total :
      (fuel : ℕ) (s : PendingSink W)
      → Reliable O
      → s.chunk_size < 65536
      → (sink_loop O fuel s).1 ≡ none
  sink_loop_total zero s r h = unfold sink_loop in refl
  sink_loop_total (suc fuel) s r h = elim (Bool-cases (leb s.chunk_size (length s.buf))) [
    | inr small ↦ rw (sink_loop_end (suc fuel) s small)
    | inl full ↦
        rw
          (sink_loop_round fuel s full (
            (write_data_dict_lem O (take s.chunk_size s.buf) s.out).1 r
              (IsChunk-Fits _ (omega (arith, length-take s.chunk_size s.buf)))))
          (sink_loop_total fuel (after_chunk s) r h)
  ]

  view_fill :
      (p : List ℕ) {s : PendingSink W} {total : List ℕ}
      → SinkView total s
      → SinkView (total ++ p) (record s { buf = s.buf ++ p })
  view_fill p {s} v = record {
    chunks = v.chunks;
    good = v.good;
    wrote = v.wrote;
    holds = sym (append_assoc (concat v.chunks) s.buf p) ∙ rw v.holds;
    size_pos = v.size_pos;
    size_aligned = v.size_aligned;
    size_fits = v.size_fits;
  }

  -- A `Write` that returns no error, on a sink whose chunk size is a positive multiple of 16 below 65536
  -- and whose data dicts and buffer make up all that it was given, leaves such a sink for the longer input, with less than one chunk in its buffer.
  pub sink_write-View :
      (p : List ℕ) (s : PendingSink W) (total : List ℕ)
      → SinkView total s
      → (sink_write O p s).1 ≡ none
      → SinkView (total ++ p) (sink_write O p s).0
        × (length (sink_write O p s).0.buf < (sink_write O p s).0.chunk_size)
  unfolding sink_write
  sink_write-View p s total v h = sink_loop-View _ _ _ (omega arith) (view_fill p v) h

  pub sink_write_total :
      (p : List ℕ) (s : PendingSink W)
      → Reliable O
      → s.chunk_size < 65536
      → (sink_write O p s).1 ≡ none
  unfolding sink_write
  sink_write_total p s r h = sink_loop_total _ _ r h

  -- `flush` puts out what is left, if anything is.
  pub sink_flush-View :
      (s : PendingSink W) (total : List ℕ)
      → SinkView total s
      → length s.buf % 16 ≡ 0
      → length s.buf < 65536
      → (sink_flush O s).1 ≡ none
      → SinkView total (sink_flush O s).0 × ((sink_flush O s).0.buf ≡ [])
  unfolding sink_flush
  sink_flush-View s total v a small h = elim (Bool-cases (length s.buf == 0)) [
    | inl z ↦ rw z (v, length_zero s.buf ((==_iff (length s.buf) 0).0 z))
    | inr z ↦ elim (Option-cases (write_data_dict O s.buf s.out).1) [
      | inr (x, e) ↦ cc (rw (z, e) at h)
      | inl e ↦
          rw (z, e)
            (
              view_chunk s.buf [] v (sym (append-nil s.buf))
                  (record { nonempty = ground arith; aligned = a; fits = small }) e,
              refl,
            )
    ]
  ]

  pub sink_flush_total :
      (s : PendingSink W) → Reliable O → length s.buf < 65536 → (sink_flush O s).1 ≡ none
  unfolding sink_flush
  sink_flush_total s r h = elim (Bool-cases (length s.buf == 0)) [
    | inl z ↦ rw z
    | inr z ↦ rw (z, (write_data_dict_lem O s.buf s.out).1 r (IsChunk-Fits s.buf h))
  ]

  -- A sink that has been given nothing.
  pub view_start :
      (w : W) (size : ℕ)
      → written w ≡ base
      → 0 < size
      → size % 16 ≡ 0
      → size < 65536
      → SinkView [] (record { out = w; buf = []; chunk_size = size })
  unfolding data_bytes
  view_start w size e p a f = record {
    chunks = [];
    good = tt;
    wrote = e ∙ sym (append-nil base);
    holds = refl;
    size_pos = p;
    size_aligned = a;
    size_fits = f;
  }

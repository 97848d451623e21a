-- ===== src/Payload/Direct.antt =====
-- csenc/decrypt.go: `decryptPipe` without the LZ4 stage, fed with the blocks of one payload.
use cloudsync_decrypt_go.Common.{
  ◌+◌, ℕ, ◌%◌, ◌≤◌, ◌≡◌, refl, sym, ap, ◌∙◌, false, List, [], ◌∷◌, ◌++◌, append_assoc, append-nil,
  arith, Option, none, some, Result, ok, err, length, length-append, All, concat,
}
use cloudsync_decrypt_go.Common.Action.{Action, ◌>>◌, seq_run, result_of}
use mathlib.Core.Path.{subst}
use cloudsync_decrypt_go.Common.{Error}
use cloudsync_decrypt_go.Io.{Out}
use cloudsync_decrypt_go.Crypto.{Crypto}
use cloudsync_decrypt_go.Lz4.{Lz4}
use cloudsync_decrypt_go.Padding.{pkcs7_pad, unpad_pkcs7, is_unaligned}
use cloudsync_decrypt_go.Padding.Cut.{pad_cut}
use cloudsync_decrypt_go.Padding.RoundTrip.{unpad-pad}
use cloudsync_decrypt_go.Encoder.Emits.{Reliable}
use cloudsync_decrypt_go.Pipeline.Sink.{IsChunk}
use cloudsync_decrypt_go.Payload.{
  Plain, direct, Pipe, multi_write, write_sink, close_stage, flush_pending, hold, feed,
  finish_pending, write_tail, finish,
}

chunk_aligned : (c : List ℕ) → IsChunk c → is_unaligned c ≡ false
chunk_aligned c h = ground (arith, h.nonempty, h.aligned)

module _ (O : Out) (C : Crypto) (L : Lz4) (reliable : Reliable O) (start : C.Mode) where
  open O use {W, write, written, write-written}
  open C use {Mode, crypt_blocks, crypt-append, crypt-nil, length-crypt}

  -- One block after another.
  abbrev pub feed_blocks : List (List ℕ) → Action (Pipe O C L) (Unit {0})
  feed_blocks [] p = (p, ok tt)
  feed_blocks (c ∷ cs) p = (feed O C L c >> feed_blocks cs) p

  -- A pipe that has been fed `fed` and holds the plaintext `b` of its last block.
  abbrev pub holding : List ℕ → List ℕ → Plain W → Pipe O C L
  holding fed b now = record {
    dec = (crypt_blocks start fed).1;
    pending = some b;
    stage = direct now;
    received = 0;
  }

  abbrev pub waiting_pipe : Plain W → Pipe O C L
  waiting_pipe p = record { dec = start; pending = none; stage = direct p; received = 0 }

  abbrev pub put : List ℕ → Plain W → Plain W
  put b p = record { out = (write p.out b).0; md5 = p.md5 ++ b }

  multi_write_total : (b : List ℕ) (p : Plain W) → multi_write O b p ≡ (put b p, none)
  unfolding multi_write
  multi_write_total b p = rw (reliable p.out b, multi_write)

  -- The last block alone is still to be written.
  pub record Holds (p : Plain W) (fed b : List ℕ) (now : Plain W) : Type 0 where
    pub sent : List ℕ
    pub wrote : written now.out ≡ written p.out ++ sent
    pub hashed : now.md5 ≡ p.md5 ++ sent
    pub whole : sent ++ b ≡ (crypt_blocks start fed).0
    pub fed_aligned : length fed % 16 ≡ 0
    pub sent_aligned : length sent % 16 ≡ 0
    pub aligned : length b % 16 ≡ 0
    pub size : 16 ≤ length b

  flush_held :
      (dec : Mode) (b : List ℕ) (now : Plain W)
      → flush_pending O C L
          (record { dec = dec; pending = some b; stage = direct now; received = 0 })
        ≡ (record { dec = dec; pending = some b; stage = direct (put b now); received = 0 }, ok tt)
  unfolding flush_pending write_sink
  flush_held dec b now = ap after (multi_write_total b now)
    where
      after : Plain W × Option Error → Pipe O C L × Result (Unit {0})
      after r =
          (record { dec = dec; pending = some b; stage = direct r.0; received = 0 }, result_of r.1)

  feed_held :
      (c fed b : List ℕ) (now : Plain W)
      → IsChunk c
      → length fed % 16 ≡ 0
      → feed O C L c (holding fed b now)
        ≡ (holding (fed ++ c) (crypt_blocks (crypt_blocks start fed).1 c).0 (put b now), ok tt)
  unfolding feed hold
  feed_held c fed b now h a =
      let next = crypt_blocks (crypt_blocks start fed).1 c in
      let p₁ : Pipe O C L = record {
        dec = next.1;
        pending = some b;
        stage = direct now;
        received = 0;
      } in
      let flushed = flush_held next.1 b now in
      let run =
        seq_run (flush_pending O C L) (hold O C L next.0) p₁
          (ap (λ (r : Pipe O C L × Result (Unit {0})). r.1) flushed) in
      rw (chunk_aligned c h, crypt-append start fed c a h.aligned)
        (run ∙ ap (λ (r : Pipe O C L × Result (Unit {0})). hold O C L next.0 r.0) flushed)

  feed_first :
      (c : List ℕ) (p : Plain W)
      → IsChunk c
      → feed O C L c (waiting_pipe p) ≡ (holding c (crypt_blocks start c).0 p, ok tt)
  unfolding feed flush_pending hold
  feed_first c p h = rw (chunk_aligned c h)

  length-crypt_chunk :
      (m : Mode) (c : List ℕ)
      → IsChunk c
      → (length (crypt_blocks m c).0 % 16 ≡ 0) × (16 ≤ length (crypt_blocks m c).0)
  length-crypt_chunk m c h =
      rw (length-crypt m c h.aligned) (h.aligned, omega (arith, h.nonempty, h.aligned))

  held_more :
      (p : Plain W) (c fed b : List ℕ) (now : Plain W)
      → IsChunk c
      → Holds p fed b now
      → Holds p (fed ++ c) (crypt_blocks (crypt_blocks start fed).1 c).0 (put b now)
  held_more p c fed b now h v = record {
    sent = v.sent ++ b;
    wrote =
        write-written now.out b (reliable now.out b)
        ∙ ap (λ (x : List ℕ). x ++ b) v.wrote
        ∙ append_assoc (written p.out) v.sent b;
    hashed = ap (λ (x : List ℕ). x ++ b) v.hashed ∙ append_assoc p.md5 v.sent b;
    whole = rw (crypt-append start fed c v.fed_aligned h.aligned, v.whole);
    fed_aligned = rw (length-append fed c) (omega (arith, v.fed_aligned, h.aligned));
    sent_aligned = rw (length-append v.sent b) (omega (arith, v.sent_aligned, v.aligned));
    aligned = (length-crypt_chunk _ c h).0;
    size = (length-crypt_chunk _ c h).1;
  }

  feed_blocks-Holds :
      (p : Plain W) (cs : List (List ℕ)) (fed b : List ℕ) (now : Plain W)
      → All IsChunk cs
      → Holds p fed b now
      → (b' : List ℕ) × (now' : Plain W) × (feed_blocks cs (holding fed b now)
          ≡ (holding (fed ++ concat cs) b' now', ok tt))
        × Holds p (fed ++ concat cs) b' now'
  feed_blocks-Holds p [] fed b now g v = (b, now, rw (append-nil fed), rw (append-nil fed) v)
  feed_blocks-Holds p (c ∷ cs) fed b now g v =
      let (b', now', e, v') =
        feed_blocks-Holds p cs (fed ++ c) _ (put b now) g.1 (held_more p c fed b now g.0 v) in
      let fed_c = feed_held c fed b now g.0 v.fed_aligned in
      let run =
        seq_run (feed O C L c) (feed_blocks cs) (holding fed b now)
          (ap (λ (r : Pipe O C L × Result (Unit {0})). r.1) fed_c)
        ∙ ap (λ (r : Pipe O C L × Result (Unit {0})). feed_blocks cs r.0) fed_c
        ∙ e in
      let same : (fed ++ c) ++ concat cs ≡ fed ++ (c ++ concat cs) =
        append_assoc fed c (concat cs) in
      (
        b',
        now',
        run ∙ ap (λ (x : List ℕ). (holding x b' now', ok tt)) same,
        subst (λ (x : List ℕ). Holds p x b' now') same v',
      )

  tail_held :
      (dec : Mode) (b t : List ℕ) (now : Plain W)
      → write_tail O C L t
          (record { dec = dec; pending = some b; stage = direct now; received = 0 })
        ≡ (record { dec = dec; pending = some b; stage = direct (put t now); received = 0 }, ok tt)
  unfolding write_tail write_sink
  tail_held dec b t now = ap after (multi_write_total t now)
    where
      after : Plain W × Option Error → Pipe O C L × Result (Unit {0})
      after r =
          let p : Pipe O C L = record {
            dec = dec;
            pending = some b;
            stage = direct r.0;
            received = 0;
          } in
          elim r.1 [ none ↦ (p, ok tt) | some e ↦ (p, err e) ]

  finish_held :
      (dec : Mode) (b t : List ℕ) (now : Plain W)
      → unpad_pkcs7 b ≡ ok t
      → finish O C L (record { dec = dec; pending = some b; stage = direct now; received = 0 })
        ≡ (record { dec = dec; pending = some b; stage = direct (put t now); received = 1 }, ok tt)
  unfolding finish finish_pending close_stage
  finish_held dec b t now h =
      let p₀ : Pipe O C L = record {
        dec = dec;
        pending = some b;
        stage = direct now;
        received = 0;
      } in
      let close : Action (Pipe O C L) (Unit {0}) =
        λ p. (record p { received = p.received + 1 }, result_of (close_stage O L p.stage)) in
      let wrote : finish_pending O C L p₀ ≡ (
        record { dec = dec; pending = some b; stage = direct (put t now); received = 0 },
        ok tt,
      ) =
        rw (h, finish_pending) (tail_held dec b t now) in
      seq_run (finish_pending O C L) close p₀
        (ap (λ (r : Pipe O C L × Result (Unit {0})). r.1) wrote)
      ∙ ap (λ (r : Pipe O C L × Result (Unit {0})). close r.0) wrote

  first_held : (p : Plain W) (c : List ℕ) → IsChunk c → Holds p c (crypt_blocks start c).0 p
  first_held p c h = record {
    sent = [];
    wrote = sym (append-nil (written p.out));
    hashed = sym (append-nil p.md5);
    whole = refl;
    fed_aligned = h.aligned;
    sent_aligned = refl;
    aligned = (length-crypt_chunk start c h).0;
    size = (length-crypt_chunk start c h).1;
  }

  -- What the output and the hash are in the end.
  pub record Completes (p : Plain W) (plain : List ℕ) (r : Pipe O C L × Result (Unit {0}))
      : Type 0 where
    pub succeeds : r.1 ≡ ok tt
    pub now : Plain W
    pub stage_is : r.0.stage ≡ direct now
    pub wrote : written now.out ≡ written p.out ++ plain
    pub hashed : now.md5 ≡ p.md5 ++ plain

  pub feed_first_blocks :
      (p : Plain W) (c : List ℕ) (cs : List (List ℕ))
      → IsChunk c
      → All IsChunk cs
      → (b : List ℕ) × (now : Plain W) × (feed_blocks (c ∷ cs) (waiting_pipe p)
          ≡ (holding (c ++ concat cs) b now, ok tt))
        × Holds p (c ++ concat cs) b now
  feed_first_blocks p c cs h g =
      let first = feed_first c p h in
      let (b, now, e, v) = feed_blocks-Holds p cs c _ p g (first_held p c h) in
      (
        b,
        now,
        seq_run (feed O C L c) (feed_blocks cs) (waiting_pipe p)
              (ap (λ (r : Pipe O C L × Result (Unit {0})). r.1) first)
            ∙ ap (λ (r : Pipe O C L × Result (Unit {0})). feed_blocks cs r.0) first
            ∙ e,
        v,
      )

  pub finish-Holds :
      (p : Plain W) (fed b plain : List ℕ) (now : Plain W)
      → Holds p fed b now
      → (crypt_blocks start fed).0 ≡ pkcs7_pad plain 16
      → Completes p plain (finish O C L (holding fed b now))
  finish-Holds p fed b plain now v e =
      let (t, padded, joined) = pad_cut plain v.sent b (v.whole ∙ e) v.sent_aligned v.size in
      let run =
        finish_held (crypt_blocks start fed).1 b t now (ap unpad_pkcs7 padded ∙ unpad-pad t) in
      record {
        succeeds = ap (λ (r : Pipe O C L × Result (Unit {0})). r.1) run;
        now = put t now;
        stage_is = ap (λ (r : Pipe O C L × Result (Unit {0})). r.0.stage) run;
        wrote =
            write-written now.out t (reliable now.out t)
            ∙ ap (λ (x : List ℕ). x ++ t) v.wrote
            ∙ append_assoc (written p.out) v.sent t
            ∙ ap (λ (x : List ℕ). written p.out ++ x) joined;
        hashed =
            ap (λ (x : List ℕ). x ++ t) v.hashed
            ∙ append_assoc p.md5 v.sent t
            ∙ ap (λ (x : List ℕ). p.md5 ++ x) joined;
      }

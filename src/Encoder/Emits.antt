-- ===== src/Encoder/Emits.antt =====
-- What each method of `wireEnc` adds to the output when no error sticks: the byte form of the dicts
-- that csenc/encrypt.go writes.
use cloudsync_decrypt_go.Common.{
  ℕ, ◌^◌, ◌<◌, ◌≡◌, refl, ◌∙◌, Bool, true, false, List, [], ◌∷◌, ◌++◌,
}
use cloudsync_decrypt_go.Common.{
  Option, none, some, ◌==◌, ltb, length, arith, ◌≢◌, ◌↔◌, append_assoc, Bool-cases, inl, inr, Error,
}
use cloudsync_decrypt_go.Common.Signed.{pos}
use cloudsync_decrypt_go.Wire.{
  tag_string, tag_int, Value, Members, dict, bytes, str, int, no_members, member,
}
use cloudsync_decrypt_go.Wire.Emit.{
  put_uint16, int_body, blob, emit, emit_members, Fits, FitsMembers,
}
use cloudsync_decrypt_go.Io.{Out}
use cloudsync_decrypt_go.Encoder.{
  WireEnc, ◌⨟◌, when, write_all, fail, dict_start, dict_end, write_short_blob, write_int_body, key,
  str_pair, int_pair, bytes_value, encode,
}

-- An entry that is written on a condition.
abbrev pub member_when : Bool → List ℕ → Value → Members → Members
member_when true k v ms = member (str k) v ms
member_when false k v ms = ms

module _ (O : Out) where
  open O use {W, write, written, write-written}

  -- No `Write` ever fails.
  abbrev pub Reliable : Type 0
  Reliable = (w : W) (b : List ℕ) → (write w b).1 ≡ none

  -- If `f` ends without an error it started without one, `P` holds, and `b` was written; and on a
  -- reliable writer it does end so if it starts so and `P` holds.
  pub record Writes (f : WireEnc W → WireEnc W) (b : List ℕ) (P : Type 0) : Type 0 where
    pub done :
        (e : WireEnc W)
        → (f e).error ≡ none
        → (e.error ≡ none) × P × (written (f e).w ≡ written e.w ++ b)
    pub total : Reliable → (e : WireEnc W) → e.error ≡ none → P → (f e).error ≡ none

  write_all_clean :
      (b : List ℕ) (w : W) (x : Option Error)
      → (write_all O b (record { w = w; error = x })).error ≡ none
      → (x ≡ none)
        × Unit {0}
        × (written (write_all O b (record { w = w; error = x })).w ≡ written w ++ b)
  unfolding write_all
  write_all_clean b w none h = (refl, tt, write-written w b h)
  write_all_clean b w (some x) h = cc

  write_all-Writes : (b : List ℕ) → Writes (write_all O b) b (Unit {0})
  unfolding write_all
  write_all-Writes b = record {
    done = λ e h. write_all_clean b e.w e.error h;
    total = λ r e h _. rw h (r e.w b);
  }

  fail_sticks :
      (x : Error) (w : W) (y : Option Error) → (fail O x (record { w = w; error = y })).error ≢ none
  unfolding fail
  fail_sticks x w none h = cc
  fail_sticks x w (some y) h = cc

  fail-Writes : (x : Error) (b : List ℕ) (P : Type 0) → ¬ P → Writes (fail O x) b P
  unfolding fail
  fail-Writes x b P never = record {
    done = λ e h. absurd (fail_sticks x e.w e.error h);
    total = λ r e h p. absurd (never p);
  }

  then-Writes :
      {f g : WireEnc W → WireEnc W} {b c : List ℕ} {P Q : Type 0}
      → Writes f b P
      → Writes g c Q
      → Writes (f ⨟ g) (b ++ c) (P × Q)
  then-Writes {f} {b} {c} p q = record {
    done = λ e h.
        let (h₁, y, e₁) = q.done (f e) h in
        let (h₂, x, e₂) = p.done e h₁ in (h₂, (x, y), e₁ ∙ rw e₂ (append_assoc (written e.w) b c));
    total = λ r e h pq. q.total r (f e) (p.total r e h pq.0) pq.1;
  }

  -- The same with other names for the bytes and the condition.
  map-Writes :
      {f : WireEnc W → WireEnc W} {b : List ℕ} {P Q : Type 0} (c : List ℕ)
      → Writes f b P
      → b ≡ c
      → (P ↔ Q)
      → Writes f c Q
  map-Writes {f} c p e k = record {
    done = λ s h. let (h₁, x, e₁) = p.done s h in (h₁, k.0 x, rw e at e₁);
    total = λ r s h q. p.total r s h (k.1 q);
  }

  write_short_blob-Writes : (b : List ℕ) → Writes (write_short_blob O b) (blob b) (length b < 65536)
  unfolding write_short_blob
  write_short_blob-Writes b = elim (Bool-cases (ltb 0xFFFF (length b))) [
    | inl h ↦ rw h (fail-Writes _ _ _ (λ k. ground arith))
    | inr h ↦ rw h (
        map-Writes _ (then-Writes (write_all-Writes (put_uint16 (length b))) (write_all-Writes b))
          refl (λ _. ground arith, λ _. (tt, tt)))
  ]

  write_int_body-Writes :
      (n : ℕ) → n < 2 ^ 63 → Writes (write_int_body O (pos n)) (int_body n) (n < 2 ^ 64)
  unfolding write_int_body int_body
  write_int_body-Writes n h = elim (Bool-cases (n == 0)) [
    | inl z ↦ rw z (map-Writes _ (write_all-Writes _) refl (λ _. omega arith, λ _. tt))
    | inr z ↦ rw z (
        map-Writes _ (then-Writes (write_all-Writes _) (write_all-Writes _)) refl
          (λ _. omega arith, λ _. (tt, tt)))
  ]

  key-Writes : (s : List ℕ) → Writes (key O s) (emit (str s)) (Fits (str s))
  unfolding key emit Fits
  key-Writes s =
      map-Writes _ (then-Writes (write_all-Writes _) (write_short_blob-Writes s)) refl
        (λ h. h.1, λ h. (tt, h))

  bytes_value-Writes : (b : List ℕ) → Writes (bytes_value O b) (emit (bytes b)) (Fits (bytes b))
  unfolding bytes_value emit Fits
  bytes_value-Writes b =
      map-Writes _ (then-Writes (write_all-Writes _) (write_short_blob-Writes b)) refl
        (λ h. h.1, λ h. (tt, h))

  int_value-Writes :
      (n : ℕ)
      → n < 2 ^ 63
      → Writes (write_all O (tag_int ∷ []) ⨟ write_int_body O (pos n)) (emit (int n)) (Fits (int n))
  unfolding emit Fits
  int_value-Writes n h =
      map-Writes _ (then-Writes (write_all-Writes _) (write_int_body-Writes n h)) refl
        (λ k. k.1, λ k. (tt, k))

  -- `f` writes one entry of a dict.
  pub record WritesPair (f : WireEnc W → WireEnc W) (k : List ℕ) (v : Value) : Type 0 where
    pub pair : Writes f (emit (str k) ++ emit v) (Fits (str k) × Fits v)

  -- `f` writes the rest of a dict.
  pub record WritesMembers (f : WireEnc W → WireEnc W) (ms : Members) : Type 0 where
    pub rest : Writes f (emit_members ms) (FitsMembers ms)

  pub str_pair-Writes : (k v : List ℕ) → WritesPair (str_pair O k v) k (str v)
  unfolding str_pair
  str_pair-Writes k v = record { pair = then-Writes (key-Writes k) (string_value v) }
    where
      string_value :
          (v : List ℕ)
          → Writes
              (write_all O (tag_string ∷ []) ⨟ write_short_blob O v)
              (emit (str v))
              (Fits (str v))
      string_value v = unfold key in key-Writes v

  pub int_pair-Writes :
      (k : List ℕ) (n : ℕ) → n < 2 ^ 63 → WritesPair (int_pair O k (pos n)) k (int n)
  unfolding int_pair
  int_pair-Writes k n h = record { pair = then-Writes (key-Writes k) (int_value-Writes n h) }

  pub bytes_pair-Writes : (k b : List ℕ) → WritesPair (key O k ⨟ bytes_value O b) k (bytes b)
  bytes_pair-Writes k b = record { pair = then-Writes (key-Writes k) (bytes_value-Writes b) }

  pub members_end : WritesMembers (dict_end O) no_members
  unfolding dict_end emit_members FitsMembers
  members_end = record { rest = write_all-Writes _ }

  pub members_more :
      {f g : WireEnc W → WireEnc W} {k : List ℕ} {v : Value} {ms : Members}
      → WritesPair f k v
      → WritesMembers g ms
      → WritesMembers (f ⨟ g) (member (str k) v ms)
  unfolding emit_members FitsMembers
  members_more {k} {v} {ms} p q = record {
    rest =
        map-Writes _ (then-Writes p.pair q.rest)
          (append_assoc (emit (str k)) (emit v) (emit_members ms))
          (λ h. (h.0.0, h.0.1, h.1), λ h. ((h.0, h.1), h.2));
  }

  pub members_when :
      (c : Bool) {f g : WireEnc W → WireEnc W} {k : List ℕ} {v : Value} {ms : Members}
      → WritesPair f k v
      → WritesMembers g ms
      → WritesMembers (when c f ⨟ g) (member_when c k v ms)
  members_when true p q = members_more p q
  members_when false p q = q

  pub dict_Writes :
      {f : WireEnc W → WireEnc W} {ms : Members}
      → WritesMembers f ms
      → Writes (dict_start O ⨟ f) (emit (dict ms)) (Fits (dict ms))
  unfolding dict_start emit Fits
  dict_Writes p =
      map-Writes _ (then-Writes (write_all-Writes _) p.rest) refl (λ h. h.1, λ h. (tt, h))

  -- A dict as a value of an entry.
  pub dict_pair :
      (k : List ℕ) {f : WireEnc W → WireEnc W} {ms : Members}
      → WritesMembers f ms
      → WritesPair (key O k ⨟ dict_start O ⨟ f) k (dict ms)
  dict_pair k p = record { pair = then-Writes (key-Writes k) (dict_Writes p) }

  -- Such an encoder on a writer: without an error, all bytes have arrived.
  pub Writes-encode :
      {f : WireEnc W → WireEnc W} {b : List ℕ} {P : Type 0} (w : W)
      → Writes f b P
      → (encode O f w).1 ≡ none
      → P × (written (encode O f w).0 ≡ written w ++ b)
  Writes-encode w p h = let (e, x, q) = p.done (record { w = w; error = none }) h in (x, q)

  pub Writes-encode_total :
      {f : WireEnc W → WireEnc W} {b : List ℕ} {P : Type 0} (w : W)
      → Writes f b P
      → Reliable
      → P
      → (encode O f w).1 ≡ none
  Writes-encode_total w p r x = p.total r (record { w = w; error = none }) refl x

-- ===== src/Decrypt/Receives.antt =====
-- csenc/decrypt.go: the receives of `Decrypt` from `doneCh`, by the handlers of its loop.
use cloudsync_decrypt_go.Common.{
  ok_injective, err_ne, sym, ap, ℕ, ◌≤◌, ◌≡◌, refl, inl, inr, Bool, List, [], Option, none, some,
  Option-cases, Bool-cases, Fallible-cases, Error, bad_data_dict, Result, ok, err, out_of_fuel,
  codes, eqb, arith,
}
use cloudsync_decrypt_go.Common.Action.{Action, ◌>>=◌, ◌>>◌, lift}
use cloudsync_decrypt_go.Common.Signed.{is_pos}
use cloudsync_decrypt_go.Wire.{Value, Members, dict, bytes, str, int, nil, lookup_members}
use cloudsync_decrypt_go.Io.{Out}
use cloudsync_decrypt_go.Crypto.{Crypto}
use cloudsync_decrypt_go.Lz4.{Lz4}
use cloudsync_decrypt_go.Keys.{evp_kdf}
use cloudsync_decrypt_go.Padding.{block_size}
use cloudsync_decrypt_go.Metadata.{Metadata, check_modes, absorb_members}
use cloudsync_decrypt_go.Recover.{Options, recover_session_key}
use cloudsync_decrypt_go.Payload.{Plain, Pipe, new_decrypt_pipe, feed}
use cloudsync_decrypt_go.Decrypt.{
  State, merge, announce, open_pipe, ensure_pipe, feed_pipe, feed_member, abort_pipe, handle_typed,
  handle, as_str, as_bytes,
}
use cloudsync_decrypt_go.Payload.Receives.{abort-le, feed-received}

module _ (O : Out) (C : Crypto) (L : Lz4) where
  open C use {PrivateKey}

  -- The pipe of a state, if there is one: nothing has been received, once at most, exactly once.
  abbrev pub Fresh : Option (Pipe O C L) → Type 0
  Fresh none = Unit {0}
  Fresh (some p) = p.received ≡ 0

  abbrev pub AtMostOnce : Option (Pipe O C L) → Type 0
  AtMostOnce none = Unit {0}
  AtMostOnce (some p) = p.received ≤ 1

  abbrev pub Once : Option (Pipe O C L) → Type 0
  Once none = ⊥
  Once (some p) = p.received ≡ 1

  -- `Q` of the pipe behind a success, and one receive at most behind a failure.
  abbrev pub After : {A : Type 0} → (Option (Pipe O C L) → Type 0) → State O C L × Result A → Type 0
  After Q (st, ok a) = Q st.pipe
  After Q (st, err e) = AtMostOnce st.pipe
  After Q (st, out_of_fuel) = AtMostOnce st.pipe

  pub Fresh-AtMostOnce : (p : Option (Pipe O C L)) → Fresh p → AtMostOnce p
  Fresh-AtMostOnce none h = tt
  Fresh-AtMostOnce (some p) h = omega arith

  pub Once-AtMostOnce : (p : Option (Pipe O C L)) → Once p → AtMostOnce p
  Once-AtMostOnce none h = tt
  Once-AtMostOnce (some p) h = omega arith

  pub bind-After :
      {A B : Type 0} (Q R : Option (Pipe O C L) → Type 0) (m : Action (State O C L) A)
      (k : A → Action (State O C L) B) (s : State O C L)
      → After Q (m s)
      → ((a : A) (t : State O C L) → Q t.pipe → After R (k a t))
      → After R ((m >>= k) s)
  bind-After {A} {B} Q R m k s h hk = go (m s) h
    where
      go :
          (r : State O C L × Result A)
          → After Q r
          → After {A = B} R (elim r.1 [
            | ok a ↦ k a r.0
            | err e ↦ (r.0, err e)
            | out_of_fuel ↦ (r.0, out_of_fuel)
          ])
      go (t, ok a) g = hk a t g
      go (t, err e) g = g
      go (t, out_of_fuel) g = g

  lift-After :
      {A : Type 0} (x : Result A) (st : State O C L) → Fresh st.pipe → After Fresh (lift x st)
  lift-After (ok a) st h = h
  lift-After (err e) st h = Fresh-AtMostOnce st.pipe h
  lift-After out_of_fuel st h = Fresh-AtMostOnce st.pipe h

  merge-After : (ms : Members) (st : State O C L) → Fresh st.pipe → After Fresh (merge O C L ms st)
  unfolding merge
  merge-After ms st h = go (absorb_members C ms st.meta) refl
    where
      go : (r : Result Metadata) → absorb_members C ms st.meta ≡ r → After Fresh (merge O C L ms st)
      go (ok m) k = rw (merge, k) h
      go (err x) k = rw (merge, k) (Fresh-AtMostOnce st.pipe h)
      go out_of_fuel k = rw (merge, k) (Fresh-AtMostOnce st.pipe h)

  new_pipe-received :
      (key : List ℕ) (q : Plain O.W) (b : Bool) (p : Pipe O C L)
      → new_decrypt_pipe O C L key q b ≡ ok p
      → p.received ≡ 0
  unfolding new_decrypt_pipe
  new_pipe-received key q b p h =
      elim (Fallible-cases (C.new_cipher (evp_kdf C key [] 1 32 block_size).0)) [
        | inl (e, k) ↦ absurd (err_ne (rw (new_decrypt_pipe, k) at h))
        | inr (a, k) ↦
            sym (ap (λ (r : Pipe O C L). r.received) (ok_injective (rw (new_decrypt_pipe, k) at h)))
      ]

  open_pipe-After :
      (key : List ℕ) (st : State O C L) → Fresh st.pipe → After Fresh (open_pipe O C L key st)
  unfolding open_pipe
  open_pipe-After key st h =
      go (new_decrypt_pipe O C L key st.plain (is_pos st.meta.compress 1)) refl
    where
      go :
          (r : Result (Pipe O C L))
          → new_decrypt_pipe O C L key st.plain (is_pos st.meta.compress 1) ≡ r
          → After Fresh (open_pipe O C L key st)
      go (ok p) k =
          rw (open_pipe, k) (new_pipe-received key st.plain (is_pos st.meta.compress 1) p k)
      go (err x) k = rw (open_pipe, k) (Fresh-AtMostOnce st.pipe h)
      go out_of_fuel k = rw (open_pipe, k) (Fresh-AtMostOnce st.pipe h)

  ensure_pipe-After :
      (o : Options PrivateKey) (st : State O C L)
      → Fresh st.pipe
      → After Fresh (ensure_pipe O C L o st)
  unfolding ensure_pipe announce
  ensure_pipe-After o st h = elim (Option-cases st.pipe) [
    | inr (p, e) ↦ rw (ensure_pipe, e) h
    | inl e ↦
        rw (ensure_pipe, e)
          (let recover : Action (State O C L) (Unit {0}) =
              lift (recover_session_key C o st.meta) >>= open_pipe O C L in
            bind-After Fresh Fresh (lift (check_modes st.meta)) (λ u. announce O C L >> recover) st
              (lift-After (check_modes st.meta) st h)
              (λ u t g.
                bind-After Fresh Fresh (announce O C L) (λ u. recover) t g
                  (λ u t' g'.
                    bind-After Fresh Fresh (lift (recover_session_key C o st.meta))
                      (open_pipe O C L) t' (lift-After (recover_session_key C o st.meta) t' g')
                      open_pipe-After)))
  ]

  pub abort_pipe-AtMostOnce :
      (e : Error) (st : State O C L) → Fresh st.pipe → AtMostOnce (abort_pipe O C L e st).pipe
  unfolding abort_pipe
  abort_pipe-AtMostOnce e st h = elim (Option-cases st.pipe) [
    | inl k ↦ rw (abort_pipe, k) (Fresh-AtMostOnce st.pipe h)
    | inr (p, k) ↦
        let none_yet : p.received ≡ 0 = rw k at h in
        rw (abort_pipe, k) (omega (arith, abort-le O C L e p))
  ]

  feed_pipe-After :
      (ct : List ℕ) (st : State O C L) → Fresh st.pipe → After Fresh (feed_pipe O C L ct st)
  unfolding feed_pipe
  feed_pipe-After ct st h = elim (Option-cases st.pipe) [
    | inl e ↦ rw (feed_pipe, e) h
    | inr (p, e) ↦ go p e (rw e at h) (feed O C L ct p).1 refl
  ]
    where
      go :
          (p : Pipe O C L)
          → st.pipe ≡ some p
          → p.received ≡ 0
          → (r : Result (Unit {0})) → (feed O C L ct p).1 ≡ r
          → After Fresh (feed_pipe O C L ct st)
      go p e z (ok x) k = rw (feed_pipe, e, k) (omega (arith, feed-received O C L ct p))
      go p e z (err x) k =
          rw (feed_pipe, e, k)
            (omega (arith, feed-received O C L ct p, abort-le O C L x (feed O C L ct p).0))
      go p e z out_of_fuel k = rw (feed_pipe, e, k) (omega (arith, feed-received O C L ct p))

  feed_member-After :
      (ct : Option (List ℕ)) (st : State O C L)
      → Fresh st.pipe
      → After Fresh (feed_member O C L ct st)
  unfolding feed_member
  feed_member-After (some ct) st h = feed_pipe-After ct st h
  feed_member-After none st h = abort_pipe-AtMostOnce bad_data_dict st h

  handle_typed-After :
      (o : Options PrivateKey) (t : List ℕ) (ms : Members) (st : State O C L)
      → Fresh st.pipe
      → After Fresh (handle_typed O C L o t ms st)
  unfolding handle_typed
  handle_typed-After o t ms st h = elim (Bool-cases (eqb t (codes "metadata"))) [
    | inl e ↦ rw (handle_typed, e) (merge-After ms st h)
    | inr e ↦ elim (Bool-cases (eqb t (codes "data"))) [
      | inr e' ↦ rw (handle_typed, e, e') (Fresh-AtMostOnce st.pipe h)
      | inl e' ↦
          rw (handle_typed, e, e')
            (bind-After Fresh Fresh (ensure_pipe O C L o)
              (λ u. feed_member O C L (as_bytes (lookup_members ms (codes "data")))) st
              (ensure_pipe-After o st h)
              (λ u. feed_member-After (as_bytes (lookup_members ms (codes "data")))))
    ]
  ]

  pub handle-After :
      (o : Options PrivateKey) (v : Value) (st : State O C L)
      → Fresh st.pipe
      → After Fresh (handle O C L o v st)
  unfolding handle
  handle-After o (dict ms) st h = elim (Option-cases (as_str (lookup_members ms (codes "type")))) [
    | inl e ↦ rw (handle, e) (Fresh-AtMostOnce st.pipe h)
    | inr (t, e) ↦ rw (handle, e) (handle_typed-After o t ms st h)
  ]
  handle-After o nil st h = Fresh-AtMostOnce st.pipe h
  handle-After o (bytes b) st h = Fresh-AtMostOnce st.pipe h
  handle-After o (str b) st h = Fresh-AtMostOnce st.pipe h
  handle-After o (int n) st h = Fresh-AtMostOnce st.pipe h

-- ===== src/Common/Action.antt =====
-- Code that changes a state and may fail: the state after it, and its result. An error leaves the
-- state as the failing step left it.
use cloudsync_decrypt_go.Common.Results.{Result, ok, err, out_of_fuel, Error}
use mathlib.Core.Option.{Option, none, some}
use mathlib.Core.Path.{◌≡◌, refl}

abbrev pub Action : Type 0 → Type 0 → Type 0
Action S A = S → S × Result A

infixl 5 ◌>>=◌ ◌>>◌
abbrev pub ◌>>=◌ : {S A B : Type 0} → Action S A → (A → Action S B) → Action S B
◌>>=◌ m f s = elim (m s).1 [
  | ok a ↦ f a (m s).0
  | err e ↦ ((m s).0, err e)
  | out_of_fuel ↦ ((m s).0, out_of_fuel)
]

abbrev pub ◌>>◌ : {S B : Type 0} → Action S (Unit {0}) → Action S B → Action S B
m >> k = m >>= λ _. k

abbrev pub lift : {S A : Type 0} → Result A → Action S A
lift r s = (s, r)

-- An `error` that may be nil, as a result.
abbrev pub result_of : Option Error → Result (Unit {0})
result_of none = ok tt
result_of (some e) = err e

-- One action after another: where the first succeeds the second goes on from its state, and where
-- both together succeed, each does.
pub seq_run :
    {S : Type 0} (m k : Action S (Unit {0})) (s : S) → (m s).1 ≡ ok tt → (m >> k) s ≡ k (m s).0
seq_run m k s h = rw (h, ◌>>=◌, ◌>>◌)

pub bind_run :
    {S A : Type 0} (m : Action S A) (k : A → Action S (Unit {0})) (s : S) (a : A)
    → (m s).1 ≡ ok a
    → (m >>= k) s ≡ k a (m s).0
bind_run m k s a h = rw (h, ◌>>=◌)

pub seq_ok :
    {S : Type 0} (m k : Action S (Unit {0})) (s : S)
    → ((m >> k) s).1 ≡ ok tt
    → ((m s).1 ≡ ok tt) × ((k (m s).0).1 ≡ ok tt)
seq_ok m k s h = go (m s).1 refl
  where
    go : (r : Result (Unit {0})) → (m s).1 ≡ r → ((m s).1 ≡ ok tt) × ((k (m s).0).1 ≡ ok tt)
    go (ok u) e = (e, rw (seq_run m k s e) at h)
    go (err x) e = cc (rw (e, ◌>>=◌, ◌>>◌) at h)
    go out_of_fuel e = cc (rw (e, ◌>>=◌, ◌>>◌) at h)

pub bind_ok :
    {S A : Type 0} (m : Action S A) (k : A → Action S (Unit {0})) (s : S)
    → ((m >>= k) s).1 ≡ ok tt
    → (a : A) × ((m s).1 ≡ ok a) × ((m >>= k) s ≡ k a (m s).0)
bind_ok {A} m k s h = go (m s).1 refl
  where
    go : (r : Result A) → (m s).1 ≡ r → (a : A) × ((m s).1 ≡ ok a) × ((m >>= k) s ≡ k a (m s).0)
    go (ok a) e = (a, e, rw (e, ◌>>=◌))
    go (err x) e = cc (rw (e, ◌>>=◌) at h)
    go out_of_fuel e = cc (rw (e, ◌>>=◌) at h)

pub result_of_ok : (x : Option Error) → result_of x ≡ ok tt → x ≡ none
result_of_ok none h = refl
result_of_ok (some e) h = cc

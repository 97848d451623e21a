-- ===== src/Examples/Disk.antt =====
-- A stand-in for the files of an operating system, for which the interface's laws hold: a list of
-- paths with their contents, in which the first entry of a path counts. A temporary file has a name
-- longer than all the names of the tree together.
use cloudsync_decrypt_go.Common.{
  ℕ, suc, ◌+◌, ◌<◌, ◌≡◌, ◌≢◌, refl, sym, ap, ◌∙◌, inl, inr, false, Bool-cases, List, [], ◌∷◌, ◌++◌,
  Option, none, some, arith, Error, eof, Fallible, eqb, eqb_refl, eqb→eq, if◌then◌else◌, length,
  replicate, length-replicate, concat, append-nil,
}
use mathlib.Core.Path.{subst}
use cloudsync_decrypt_go.Wire.{Source}
use cloudsync_decrypt_go.Wire.RoundTrip.{source}
use cloudsync_decrypt_go.Os.{Os, FilePath}
use cloudsync_decrypt_go.File.Temp.{IsReadable, Works}
use cloudsync_decrypt_go.File.{make_parent}

abbrev pub Tree : Type 0
Tree = List (FilePath × List ℕ)

abbrev pub find : Tree → FilePath → Option (List ℕ)
find [] p = none
find ((q, c) ∷ t) p = if eqb q p then some c else find t p

abbrev pub erase : FilePath → Tree → Tree
erase p [] = []
erase p ((q, c) ∷ t) = let rest = erase p t in if eqb q p then rest else (q, c) ∷ rest

abbrev pub or_empty : Option (List ℕ) → List ℕ
or_empty none = []
or_empty (some c) = c

abbrev pub source_of : Option (List ℕ) → Fallible Source
source_of none = inl (Error.external 2)
source_of (some c) = inr (source c eof)

abbrev pub total : Tree → ℕ
total [] = 0
total ((q, c) ∷ t) = length q + total t

abbrev pub temp_name : ℕ → FilePath
temp_name n = replicate (suc n) 116

eqb_ne : (p q : FilePath) → p ≢ q → eqb p q ≡ false
eqb_ne p q h = elim (Bool-cases (eqb p q)) [ inl e ↦ absurd (h (eqb→eq p q e)) | inr e ↦ e ]

pub find_first : (t : Tree) (p : FilePath) (c : List ℕ) → find ((p, c) ∷ t) p ≡ some c
find_first t p c = rw (eqb_refl p)

pub find_next : (t : Tree) (q p : FilePath) (c : List ℕ) → p ≢ q → find ((q, c) ∷ t) p ≡ find t p
find_next t q p c h = rw (eqb_ne q p (λ e. h (sym e)))

find-erase : (t : Tree) (p : FilePath) → find (erase p t) p ≡ none
find-erase [] p = refl
find-erase ((q, c) ∷ t) p = elim (Bool-cases (eqb q p)) [
  | inl e ↦ rw e (find-erase t p)
  | inr e ↦ rw (e, e) (find-erase t p)
]

pub find-erase_other : (t : Tree) (q p : FilePath) → p ≢ q → find (erase q t) p ≡ find t p
find-erase_other [] q p h = refl
find-erase_other ((r, c) ∷ t) q p h = elim (Bool-cases (eqb r q)) [
  | inl e ↦ rw (e, eqb_ne r p (λ k. h (sym k ∙ eqb→eq r q e))) (find-erase_other t q p h)
  | inr e ↦ rw (e, find-erase_other t q p h)
]

pub find_long : (t : Tree) (p : FilePath) → total t < length p → find t p ≡ none
find_long [] p h = refl
find_long ((q, c) ∷ t) p h = elim (Bool-cases (eqb q p)) [
  | inl e ↦ absurd (let k = ap length (eqb→eq q p e) in omega arith)
  | inr e ↦ rw e (find_long t p (omega arith))
]

pub linked :
    (f : ℕ) (t : Tree) (c : List ℕ)
    → find ((temp_name f, c) ∷ t) (temp_name f)
      ≡ some (or_empty (find ((temp_name f, c) ∷ t) (temp_name f)))
linked f t c =
    find_first t (temp_name f) c ∙ ap some (sym (ap or_empty (find_first t (temp_name f) c)))

pub created :
    (t : Tree) (f : ℕ)
    → ◌≡◌ {A = Fallible ℕ} (inr (total t)) (inr f)
    → (find t (temp_name f) ≡ none)
      × (find ((temp_name (total t), []) ∷ t) (temp_name f) ≡ some [])
      × (or_empty (find ((temp_name (total t), []) ∷ t) (temp_name f)) ≡ [])
created t f h =
    let first = find_first t (temp_name (total t)) [] in
    subst
      (λ (f : ℕ).
        (find t (temp_name f) ≡ none)
        × (find ((temp_name (total t), []) ∷ t) (temp_name f) ≡ some [])
        × (or_empty (find ((temp_name (total t), []) ∷ t) (temp_name f)) ≡ []))
      (cc)
      (
        find_long t (temp_name (total t))
            (omega (arith, length-replicate {A = ℕ} (suc (total t)) 116)),
        first,
        ap or_empty first,
      )

-- Renaming a path that holds so much; one that is not there is an error.
abbrev pub rename_to : Tree → FilePath → FilePath → Option (List ℕ) → Tree × Option Error
rename_to t a b none = (t, some (Error.external 2))
rename_to t a b (some c) = ((b, c) ∷ erase a t, none)

pub rename_to-failed :
    (t : Tree) (a b p : FilePath) (e : Error) (c : Option (List ℕ))
    → (rename_to t a b c).1 ≡ some e
    → find (rename_to t a b c).0 p ≡ find t p
rename_to-failed t a b p e none h = refl
rename_to-failed t a b p e (some c) h = cc

pub rename_to-target :
    (t : Tree) (a b : FilePath) (c : Option (List ℕ))
    → c ≡ find t a
    → (rename_to t a b c).1 ≡ none
    → find (rename_to t a b c).0 b ≡ find t a
rename_to-target t a b none e h = cc
rename_to-target t a b (some c) e h = find_first (erase a t) b c ∙ e

pub rename_to-others :
    (t : Tree) (a b p : FilePath) (c : Option (List ℕ))
    → p ≢ a
    → p ≢ b
    → find (rename_to t a b c).0 p ≡ find t p
rename_to-others t a b p none h k = refl
rename_to-others t a b p (some c) h k = find_next (erase a t) b p c k ∙ find-erase_other t a p h

abbrev pub toy_os : Os
toy_os = record {
  Fs = Tree;
  File = ℕ;
  name = temp_name;
  content = find;
  stored = λ f t. or_empty (find t (temp_name f));
  open_file = λ t p. source_of (find t p);
  read_file = λ t p. elim (find t p) [ none ↦ inl (Error.external 2) | some c ↦ inr c ];
  slices = λ b. b ∷ [];
  concat-slices = λ b. append-nil b;
  mkdir_all = λ t d. (t, none);
  mkdir_all-content = λ t d p. refl;
  create_temp = λ t d pattern. ((temp_name (total t), []) ∷ t, inr (total t));
  create_temp-content =
      λ t d pattern p h. find_next t (temp_name (total t)) p [] (h (total t) refl);
  create_temp-new = λ t d pattern f h. created t f h;
  write = λ f t b. ((temp_name f, or_empty (find t (temp_name f)) ++ b) ∷ t, none);
  write-stored = λ f t b h. ap or_empty (find_first t (temp_name f) _);
  write-content = λ f t b p h. find_next t (temp_name f) p _ h;
  write-linked = λ f t b h. linked f t (or_empty (find t (temp_name f)) ++ b);
  close_file = λ f t. (t, none);
  close_file-content = λ f t p. refl;
  rename = λ t a b. rename_to t a b (find t a);
  rename_failed = λ t a b p e h. rename_to-failed t a b p e (find t a) h;
  rename_target = λ t a b h. rename_to-target t a b (find t a) refl h;
  rename_others = λ t a b p h k. rename_to-others t a b p (find t a) h k;
  remove = λ t a. (erase a t, none);
  remove_others = λ t a p h. find-erase_other t a p h;
  stat = λ t p. elim (find t p) [
    | none ↦ inl (Error.external 2)
    | some c ↦ inr (record { is_dir = false; size = length c; mod_time = 0 })
  ];
  chtimes = λ t p m. (t, none);
  chtimes-content = λ t a p m. refl;
  walk_dir = λ t p. ([], none);
  dir = λ p. [];
  base = λ p. p;
  clean = λ p. p;
  join = λ ps. concat ps;
  rel = λ a b. inr b;
}

pub toy-IsReadable : (t : Tree) (p : FilePath) → IsReadable toy_os t p
toy-IsReadable t p c h = ap source_of h

pub toy-Works : (pattern : List ℕ) (p : FilePath) (t : Tree) → Works toy_os pattern p t
unfolding make_parent
toy-Works pattern p t =
    let from : Tree = (temp_name (total t), []) ∷ t in
    record {
      parent = refl;
      temp = total t;
      made = refl;
      writes = λ w b. refl;
      closes = λ w. refl;
      renames = λ w.
          renamed w.now (temp_name (total t)) p (find w.now (temp_name (total t)))
            (or_empty (find w.now (temp_name (total t)))) (w.linked (linked (total t) t []));
    }
  where
    renamed :
        (now : Tree) (a b : FilePath) (c : Option (List ℕ)) (d : List ℕ)
        → c ≡ some d
        → (rename_to now a b c).1 ≡ none
    renamed now a b none d h = cc
    renamed now a b (some c) d h = refl

-- ===== src/Os.antt =====
-- What csenc takes from Go's os and path/filepath packages, as an interface: the tree of files as a
-- state, opening, temporary files, renaming and the operations on paths. A path is a byte string, and
-- `content` is what a path holds, if it is a file. The laws are the documented behaviour: which paths
-- an operation can change, what a new temporary file is, and that a rename replaces its target whole.
use cloudsync_decrypt_go.Common.{
  ℕ, ◌≡◌, ◌≢◌, refl, ◌∙◌, List, [], ◌++◌, Option, none, some, Error, Fallible, inr, Bool, concat,
}
use cloudsync_decrypt_go.Wire.{Source}
use cloudsync_decrypt_go.Io.{Out}

abbrev pub FilePath : Type 0
FilePath = List ℕ

-- `fs.FileInfo`
pub record FileInfo : Type 0 where
  pub is_dir : Bool
  pub size : ℕ
  pub mod_time : ℕ

-- What `filepath.WalkDir` hands to its function for one path: an error, or an entry whose kind is
-- known and whose `Info` may fail.
pub data Visit : Type 0 where
  walk_error : FilePath → Error → Visit
  entry : FilePath → Bool → Fallible FileInfo → Visit

pub record Os : Type 1 where
  pub Fs : Type 0
  pub File : Type 0
  pub name : File → FilePath
  -- The bytes behind a path, and those behind an open file.
  pub content : Fs → FilePath → Option (List ℕ)
  pub stored : File → Fs → List ℕ
  -- `os.Open`: a reader over the file.
  pub open_file : Fs → FilePath → Fallible Source
  -- `os.ReadFile`
  pub read_file : Fs → FilePath → Fallible (List ℕ)
  -- The slices in which `io.Copy` reads a file.
  pub slices : List ℕ → List (List ℕ)
  pub concat-slices : (b : List ℕ) → concat (slices b) ≡ b
  pub mkdir_all : Fs → FilePath → Fs × Option Error
  pub mkdir_all-content : (fs : Fs) (d p : FilePath) → content (mkdir_all fs d).0 p ≡ content fs p
  -- `os.CreateTemp`: a file that was not there, and is empty.
  pub create_temp : Fs → FilePath → List ℕ → Fs × Fallible File
  pub create_temp-content :
      (fs : Fs) (d pattern p : FilePath)
      → ((f : File) → (create_temp fs d pattern).1 ≡ inr f → p ≢ name f)
      → content (create_temp fs d pattern).0 p ≡ content fs p
  pub create_temp-new :
      (fs : Fs) (d pattern : FilePath) (f : File)
      → (create_temp fs d pattern).1 ≡ inr f
      → (content fs (name f) ≡ none)
        × (content (create_temp fs d pattern).0 (name f) ≡ some [])
        × (stored f (create_temp fs d pattern).0 ≡ [])
  -- `File.Write` and `File.Close`
  pub write : File → Fs → List ℕ → Fs × Option Error
  pub write-stored :
      (f : File) (fs : Fs) (b : List ℕ)
      → (write f fs b).1 ≡ none
      → stored f (write f fs b).0 ≡ stored f fs ++ b
  pub write-content :
      (f : File) (fs : Fs) (b : List ℕ) (p : FilePath)
      → p ≢ name f
      → content (write f fs b).0 p ≡ content fs p
  pub write-linked :
      (f : File) (fs : Fs) (b : List ℕ)
      → content fs (name f) ≡ some (stored f fs)
      → content (write f fs b).0 (name f) ≡ some (stored f (write f fs b).0)
  pub close_file : File → Fs → Fs × Option Error
  pub close_file-content :
      (f : File) (fs : Fs) (p : FilePath) → content (close_file f fs).0 p ≡ content fs p
  -- `os.Rename`: all or nothing.
  pub rename : Fs → FilePath → FilePath → Fs × Option Error
  pub rename_failed :
      (fs : Fs) (a b p : FilePath) (e : Error)
      → (rename fs a b).1 ≡ some e
      → content (rename fs a b).0 p ≡ content fs p
  pub rename_target :
      (fs : Fs) (a b : FilePath)
      → (rename fs a b).1 ≡ none
      → content (rename fs a b).0 b ≡ content fs a
  pub rename_others :
      (fs : Fs) (a b p : FilePath) → p ≢ a → p ≢ b → content (rename fs a b).0 p ≡ content fs p
  -- `os.Remove`
  pub remove : Fs → FilePath → Fs × Option Error
  pub remove_others : (fs : Fs) (a p : FilePath) → p ≢ a → content (remove fs a).0 p ≡ content fs p
  -- `os.Stat`, `os.Chtimes` and `filepath.WalkDir` under a function that goes on at every path.
  pub stat : Fs → FilePath → Fallible FileInfo
  pub chtimes : Fs → FilePath → ℕ → Fs × Option Error
  pub chtimes-content :
      (fs : Fs) (a p : FilePath) (m : ℕ) → content (chtimes fs a m).0 p ≡ content fs p
  pub walk_dir : Fs → FilePath → List Visit × Option Error
  -- `filepath.Dir`, `Base`, `Clean`, `Join` and `Rel`
  pub dir : FilePath → FilePath
  pub base : FilePath → FilePath
  pub clean : FilePath → FilePath
  pub join : List FilePath → FilePath
  pub rel : FilePath → FilePath → Fallible FilePath

-- The trees that an open file can be written from a given one: they differ in that file only, and the
-- path of the file still holds what was written if it did at first.
pub record Reached (S : Os) (f : S.File) (from : S.Fs) : Type 0 where
  pub now : S.Fs
  pub others : (p : FilePath) → p ≢ S.name f → S.content now p ≡ S.content from p
  pub linked :
      S.content from (S.name f) ≡ some (S.stored f from)
      → S.content now (S.name f) ≡ some (S.stored f now)

module _ (S : Os) (f : S.File) where
  abbrev pub at_once : (fs : S.Fs) → Reached S f fs
  at_once fs = record { now = fs; others = λ p h. refl; linked = λ h. h }

  -- An open file as an `io.Writer`.
  abbrev pub file_out : S.Fs → Out
  file_out fs = record {
    W = Reached S f fs;
    write = λ w b. (
      record {
        now = (S.write f w.now b).0;
        others = λ p h. S.write-content f w.now b p h ∙ w.others p h;
        linked = λ h. S.write-linked f w.now b (w.linked h);
      },
      (S.write f w.now b).1,
    );
    written = λ w. S.stored f w.now;
    write-written = λ w b h. S.write-stored f w.now b h;
  }

-- ===== src/Star/Files/Dir.antt =====
-- DirToTar and readFiles of ext/tar.go, and LocalFS of star/fs.go. What filepath.WalkDir calls back with, the entries in its order or an
-- error, is a parameter, as are filepath.Abs and os.ReadFile.
pub mod Packed
use starlark_worker.Prelude.{
  ◌+◌, Bool, true, false, List, [], ◌∷◌, Text, ◌==◌, nat_eq, list_eq, if◌then◌else◌, Result, ok,
  err, ◌>>=◌, leb, length, drop, insert,
}
use starlark_worker.Star.Files.Write.{TarWriter, write_tar}

-- A path comes with whether it is a directory.
pub record Walk (E : Type 0) : Type 0 where
  pub abs : Text → Result E Text
  pub entries : Text → List (Result E (Text × Bool))
  pub read_file : Text → Result E Text

pub data DirErr (E : Type 0) : Type 0 where
  failed : E → DirErr E
  slice_panic : DirErr E

abbrev pub called : {E A : Type 0} → Result E A → Result (DirErr E) A
called (ok a) = ok a
called (err e) = err (failed e)

-- `path[len(root)+1:]`
unfoldable pub name_in : {E : Type 0} → Text → Text → Result (DirErr E) Text
name_in root path =
    if leb (length root + 1) (length path)
    then ok (drop (length root + 1) path)
    else err slice_panic

module _ {E : Type 0} (walk : Walk E) where
  -- readFiles, with the callback that DirToTar gives it; `root` is the absolute one.
  unfoldable pub read_files :
      Text
      → List (Result E (Text × Bool))
      → List (Text × Text)
      → Result (DirErr E) (List (Text × Text))
  unfolding name_in
  read_files root [] files = ok files
  read_files root (err e ∷ es) files = err (failed e)
  read_files root (ok (path, true) ∷ es) files = read_files root es files
  read_files root (ok (path, false) ∷ es) files = do
    content ← called (walk.read_file path)
    name ← name_in root path
    read_files root es (insert name content files)

  -- DirToTar
  unfoldable pub dir_to_tar : {W T : Type 0} → TarWriter W T E → Text → Result (DirErr E) T
  unfolding read_files
  dir_to_tar writer root = do
    r ← called (walk.abs root)
    files ← read_files r (walk.entries r) []
    called (write_tar writer files)

-- (*LocalFS).Read, over filepath.Join and os.ReadFile
unfoldable pub local_read :
    {E : Type 0} → (Text → Text → Text) → (Text → Result E Text) → Text → Text → Result E Text
local_read join read_file root path = read_file (join root path)

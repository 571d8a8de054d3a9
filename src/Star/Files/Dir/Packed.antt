-- ===== src/Star/Files/Dir/Packed.antt =====
-- What NewTarFS of star/fs.go reads of the archive that DirToTar of ext/tar.go makes of a directory.
use starlark_worker.Prelude.{
  ℕ, suc, ◌+◌, ◌≡◌, refl, sym, ap, ◌∙◌, Bool, true, false, none, List, [], ◌∷◌, ◌++◌, map, Text,
  ◌==◌, nat_eq, list_eq, list_beq_iff, Bool-cases, inl, inr, Result, ok, err, leb, length, drop,
  lookup, insert, lookup-insert, All, beq_refl, arith,
}
use mathlib.Core.List.{append-nil, append_assoc}
use starlark_worker.Star.Files.{clean, TarEvent, new_tar_fs, read}
use starlark_worker.Star.Files.Write.{TarWriter, write_tar, event, CleanApart, read-write_tar}
use starlark_worker.Star.Files.Dir.{Walk, called, name_in, read_files, dir_to_tar}

drop-suc : (r s : Text) (c : ℕ) → drop (suc (length r)) (r ++ c ∷ s) ≡ s
drop-suc [] s c = refl
drop-suc (b ∷ r) s c = drop-suc r s c

drop-append : (r s : Text) (c : ℕ) → drop (length r + 1) (r ++ c ∷ s) ≡ s
drop-append r s c =
    let same : length r + 1 ≡ suc (length r) = omega arith in
    ap (λ k. drop k (r ++ c ∷ s)) same ∙ drop-suc r s c

leb-append : (r s : Text) (c : ℕ) → leb (length r + 1) (length (r ++ c ∷ s)) ≡ true
leb-append [] s c = ground arith
leb-append (b ∷ r) s c = ground (arith, leb-append r s c)

name_in-append : {E : Type 0} (r n : Text) → name_in {E = E} r (r ++ b'/' ∷ n) ≡ ok n
unfolding name_in
name_in-append r n = rw (leb-append r n b'/', drop-append r n b'/') refl

insert-new :
    (n c : Text) (files : List (Text × Text))
    → lookup n files ≡ none
    → insert n c files ≡ files ++ (n, c) ∷ []
unfolding lookup insert
insert-new n c [] h = refl
insert-new n c ((m, d) ∷ files) h = elim (Bool-cases (m == n)) [
  | inl e ↦ (let found = rw (lookup, e) at h in absurd cc)
  | inr e ↦ rw (insert, e) (ap (λ l. (m, d) ∷ l) (insert-new n c files (rw (lookup, e) at h)))
]

names_apart : (n m : Text) → (clean n == clean m) ≡ false → (n == m) ≡ false
names_apart n m h = elim (Bool-cases (n == m)) [
  | inl e ↦ absurd (
      no_truth (
        sym (beq_refl (clean n))
        ∙ ap (λ k. clean n == clean k) ((list_beq_iff nat_eq n m).0 e)
        ∙ h))
  | inr e ↦ e
]
  where
    no_truth : true ≡ false → ⊥
    no_truth q = cc

still_new :
    (n c : Text) (acc files : List (Text × Text))
    → All (λ e. (clean n == clean e.0) ≡ false) files
    → All (λ e. lookup e.0 acc ≡ none) files
    → All (λ e. lookup e.0 (insert n c acc) ≡ none) files
still_new n c acc [] f g = tt
still_new n c acc ((m, d) ∷ files) (f, fs) (g, gs) =
    (rw (lookup-insert n m c acc, names_apart n m f) g, still_new n c acc files fs gs)

none_found : (files : List (Text × Text)) → All (λ e. lookup {V = Text} e.0 [] ≡ none) files
unfolding lookup
none_found [] = tt
none_found (e ∷ files) = (refl, none_found files)

module _ {E : Type 0} (walk : Walk E) where
  -- The walk of the directory `r` comes by these files, each under `r` and a separator, and by any
  -- directories, without an error.
  pub data Listed (r : Text) : List (Result E (Text × Bool)) → List (Text × Text) → Type 0 where
    at_end : Listed r [] []
    at_dir :
        {es : List (Result E (Text × Bool))} {files : List (Text × Text)} (path : Text)
        → Listed r es files
        → Listed r (ok (path, true) ∷ es) files
    at_file :
        {es : List (Result E (Text × Bool))} {files : List (Text × Text)} (n c : Text)
        → walk.read_file (r ++ b'/' ∷ n) ≡ ok c
        → Listed r es files
        → Listed r (ok (r ++ b'/' ∷ n, false) ∷ es) ((n, c) ∷ files)

  read_files-Listed :
      {r : Text} {es : List (Result E (Text × Bool))} {files : List (Text × Text)}
      (acc : List (Text × Text))
      → Listed r es files
      → CleanApart files
      → All (λ e. lookup e.0 acc ≡ none) files
      → read_files walk r es acc ≡ ok (acc ++ files)
  unfolding read_files
  read_files-Listed acc at_end apart new = ap ok (sym (append-nil acc))
  read_files-Listed acc (at_dir path l) apart new = read_files-Listed acc l apart new
  read_files-Listed {r} acc (at_file {files = files} n c found l) (first, apart) (new_n, new) =
      rw (found, name_in-append {E = E} r n)
        (read_files-Listed (insert n c acc) l apart (still_new n c acc files first new)
          ∙ ap (λ a. ok (a ++ files)) (insert-new n c acc new_n)
          ∙ ap ok (append_assoc acc ((n, c) ∷ []) files))

  called_ok : {A : Type 0} {r : Result E A} {a : A} → called r ≡ ok a → r ≡ ok a
  called_ok {r = ok b} h = cc
  called_ok {r = err e} h = cc

  -- The archive that DirToTar makes of a directory is accepted by NewTarFS, and each file that the walk
  -- came by reads under its path behind the directory and a separator as it was on the disk, if no
  -- two of these paths have the same clean path. It is assumed that the readers of the archive hand
  -- over what the writers got, in that order.
  pub read-dir_to_tar :
      {W T : Type 0} (writer : TarWriter W T E) (unpack : T → List TarEvent)
      (unpacked : (files : List (Text × Text)) (tar : T)
        → write_tar writer files ≡ ok tar
        → unpack tar ≡ map event files)
      (root r : Text) (files : List (Text × Text)) (tar : T)
      → walk.abs root ≡ ok r
      → Listed r (walk.entries r) files
      → CleanApart files
      → dir_to_tar walk writer root ≡ ok tar
      → (fs : List (Text × Text)) × (new_tar_fs (unpack tar) ≡ ok fs)
        × All (λ e. read fs e.0 ≡ ok e.1) files
  unfolding dir_to_tar
  read-dir_to_tar writer unpack unpacked root r files tar a l apart h =
      read-write_tar writer unpack unpacked files tar apart
        (called_ok (rw (dir_to_tar, a, read_files-Listed [] l apart (none_found files)) at h))

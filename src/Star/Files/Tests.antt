-- ===== src/Star/Files/Tests.antt =====
-- Runs of the model of star/fs.go, and its theorems at concrete values.
use starlark_worker.Prelude.{
  ◌≡◌, refl, sym, ap, ◌∙◌, inl, inr, some, All, List, [], ◌∷◌, ◌++◌, map, reverse, Text, text, ◌==◌,
  nat_eq, list_eq, list_beq, if◌then◌else◌, ok, err, ok_injective, >>=-eq-ok, Bool-cases, lookup,
  insert, Bool, true, false, Result,
}
use mathlib.Core.List.{append-nil, append_assoc, reverse-append}
use starlark_worker.Star.Files.{TarEvent, entry, clean, join_parts, add_file, new_tar_fs, read}
use starlark_worker.Star.Files.Paths.{IsName, clean_names}
use starlark_worker.Star.Files.Dir.{Walk, dir_to_tar}
use starlark_worker.Star.Files.Dir.Packed.{Listed, at_end, at_dir, at_file, read-dir_to_tar}
use starlark_worker.Star.Files.Write.{TarWriter, put_files, write_tar, event}
use starlark_worker.Star.Files.Reads.{content_of, served, read-new_tar_fs}

clean_names_example : (ps : List Text) × (clean (text "../a") ≡ join_parts ps) × All IsName ps
clean_names_example = clean_names (text "../a")

clean_up : clean (text "../x/./a//b/..") ≡ text "/x/a"
unfolding clean list_beq
clean_up = refl

abbrev archive : List TarEvent
archive = entry (text "a") (text "1") ∷ entry (text "d/../b") (text "2") ∷ []

abbrev archive_files : List (Text × Text)
archive_files = (text "/a", text "1") ∷ (text "/b", text "2") ∷ []

archive_accepted : new_tar_fs archive ≡ ok archive_files
unfolding new_tar_fs add_file insert clean list_beq lookup
archive_accepted = refl

read-new_tar_fs_example :
    read archive_files (text "b")
    ≡ served (clean (text "b")) (content_of (clean (text "b")) archive)
read-new_tar_fs_example = read-new_tar_fs archive archive_files (text "b") archive_accepted

archive_has : content_of (clean (text "./b")) archive ≡ some (text "2")
unfolding clean list_beq
archive_has = refl

-- An archive that is the list of what was put into it, the last first.
abbrev listing : TarWriter (List (Text × Text)) (List (Text × Text)) Text
listing = record {
  new_writer = [];
  put = λ path body w. if path == [] then err (text "no name") else ok ((path, body) ∷ w);
  close = λ w. ok (reverse w);
}

put_files-listing :
    (files w v : List (Text × Text))
    → put_files listing files w ≡ ok v
    → reverse v ≡ reverse w ++ files
unfolding put_files
put_files-listing [] w v h = ap reverse (sym (ok_injective h)) ∙ sym (append-nil (reverse w))
put_files-listing ((path, body) ∷ files) w v h = elim (Bool-cases (path == [])) [
  | inl e ↦ (let z = rw (e, put_files) at h in absurd cc)
  | inr e ↦
      put_files-listing files ((path, body) ∷ w) v (rw (e, put_files) at h)
      ∙ ap (λ l. l ++ files) (reverse-append ((path, body) ∷ []) w)
      ∙ append_assoc (reverse w) ((path, body) ∷ []) files
]

listing_unpacked :
    (files tar : List (Text × Text))
    → write_tar listing files ≡ ok tar
    → map event tar ≡ map event files
unfolding write_tar
listing_unpacked files tar h =
    let (w, e, k) = >>=-eq-ok (put_files listing files []) (λ w. ok (reverse w)) h in
    ap (map event) (sym (ok_injective k) ∙ put_files-listing files [] w e)

abbrev two : List (Text × Text)
two = (text "a.star", text "1") ∷ (text "d/b.txt", text "2") ∷ []

-- A directory with the two files, and one directory in it.
abbrev on_disk : Text → Result Text Text
on_disk p =
    if p == text "/r/a.star"
    then ok (text "1")
    else if p == text "/r/d/b.txt"
    then ok (text "2")
    else err (text "no file")

abbrev walked : List (Result Text (Text × Bool))
walked =
    ok (text "/r", true)
    ∷ ok (text "/r/a.star", false)
    ∷ ok (text "/r/d", true)
    ∷ ok (text "/r/d/b.txt", false)
    ∷ []

abbrev directory : Walk Text
directory = record { abs = λ p. ok (text "/r"); entries = λ r. walked; read_file = on_disk }

directory-Listed : Listed directory (text "/r") walked two
unfolding list_beq
directory-Listed = at_dir (text "/r") (
    at_file (text "a.star") (text "1") refl
      (at_dir (text "/r/d") (at_file (text "d/b.txt") (text "2") refl at_end)))

read-dir_to_tar_example :
    (fs : List (Text × Text)) × (new_tar_fs (map event two) ≡ ok fs)
    × All (λ e. read fs e.0 ≡ ok e.1) two
unfolding clean list_beq write_tar dir_to_tar insert
read-dir_to_tar_example =
    read-dir_to_tar directory listing (map event) listing_unpacked (text ".") (text "/r") two two
      refl directory-Listed ((refl, tt), (tt, tt)) refl

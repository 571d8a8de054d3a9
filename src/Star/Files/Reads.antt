-- ===== src/Star/Files/Reads.antt =====
-- What the file system of star/fs.go serves.
use starlark_worker.Prelude.{
  ◌≡◌, ◌≢◌, refl, sym, ◌∙◌, Option, none, some, List, [], ◌∷◌, ◌++◌, Text, ◌==◌, nat_eq, list_eq,
  if◌then◌else◌, arith, Bool-cases, Option-cases, inl, inr, Result, ok, err, lookup, insert,
  lookup-insert, list_beq_iff,
}
use starlark_worker.Star.Errors.{Err, not_exist, file_collision}
use starlark_worker.Star.Files.{
  TarEvent, entry, broken, read_tar, add_file, new_tar_fs, read, clean,
}
use starlark_worker.Star.Files.Paths.{clean_abs}

-- The content of the first entry whose clean name is `q`.
abbrev pub content_of : Text → List TarEvent → Option Text
content_of q [] = none
content_of q (broken e ∷ events) = content_of q events
content_of q (entry name content ∷ events) =
    if clean name == q then some content else content_of q events

abbrev or_else : Option Text → Option Text → Option Text
or_else none o = o
or_else (some c) o = some c

add_file-none :
    (name content : Text) (m : List (Text × Text))
    → lookup (clean name) m ≡ none
    → add_file name content m ≡ ok (insert (clean name) content m)
unfolding add_file
add_file-none name content m e = rw (e, add_file)

add_file-some :
    (name content c : Text) (m : List (Text × Text))
    → lookup (clean name) m ≡ some c
    → add_file name content m ≡ err (file_collision (clean name))
unfolding add_file
add_file-some name content c m e = rw (e, add_file)

-- What a key reads as, once a new file is added.
or_else-insert :
    (q k content : Text) (rest : Option Text) (m : List (Text × Text))
    → lookup k m ≡ none
    → or_else (lookup q (insert k content m)) rest
      ≡ or_else (lookup q m) (if k == q then some content else rest)
or_else-insert q k content rest m e = elim (Bool-cases (k == q)) [
  | inl t ↦
      let same : lookup q m ≡ none = rw ((list_beq_iff nat_eq k q).0 t) at e in
      rw (lookup-insert k q content m, t, same)
  | inr f ↦ rw (lookup-insert k q content m, f)
]

or_else-none : (o : Option Text) → or_else o none ≡ o
or_else-none none = refl
or_else-none (some c) = refl

read_tar-lookup :
    (q : Text) (events : List TarEvent) (m files : List (Text × Text))
    → read_tar events add_file m ≡ ok files
    → lookup q files ≡ or_else (lookup q m) (content_of q events)
unfolding read_tar
read_tar-lookup q [] m files h = ground (arith, or_else-none (lookup q m))
read_tar-lookup q (broken e ∷ events) m files h = cc
read_tar-lookup q (entry name content ∷ events) m files h =
    elim (Option-cases (lookup (clean name) m)) [
      | inl e ↦
          read_tar-lookup q events (insert (clean name) content m) files
            (rw (add_file-none name content m e) at h)
          ∙ or_else-insert q (clean name) content (content_of q events) m e
      | inr (c, e) ↦
          let no_file : err (file_collision (clean name)) ≡ ok files =
            rw (add_file-some name content c m e) at h in
          cc
    ]

-- What Read makes of the entry that the map has.
abbrev pub served : Text → Option Text → Result Err Text
served q none = err (not_exist q)
served q (some content) = ok content

-- If the archive is accepted, a path reads as the first entry with the same clean path, and a path
-- that no entry has does not exist.
pub read-new_tar_fs :
    (events : List TarEvent) (files : List (Text × Text)) (p : Text)
    → new_tar_fs events ≡ ok files
    → read files p ≡ served (clean p) (content_of (clean p) events)
unfolding new_tar_fs read lookup
read-new_tar_fs events files p h =
    rw (clean_abs p)
      (rw (← read_tar-lookup (clean p) events [] files h) (served_lem (lookup (clean p) files)))
  where
    served_lem :
        (o : Option Text)
        → (elim o [ none ↦ err (not_exist (clean p)) | some c ↦ ok c ]) ≡ served (clean p) o
    served_lem none = refl
    served_lem (some c) = refl

-- Reading an archive that has a file already, or has it twice, fails.
read_tar-taken :
    (name content c : Text) (pre post : List TarEvent) (m files : List (Text × Text))
    → or_else (lookup (clean name) m) (content_of (clean name) pre) ≡ some c
    → read_tar (pre ++ entry name content ∷ post) add_file m ≢ ok files
unfolding read_tar
read_tar-taken name content c [] post m files h e =
    let taken : lookup (clean name) m ≡ some c = sym (or_else-none (lookup (clean name) m)) ∙ h in
    let no_file : err (file_collision (clean name)) ≡ ok files =
      rw (add_file-some name content c m taken) at e in
    cc
read_tar-taken name content c (broken x ∷ pre) post m files h e = cc
read_tar-taken name content c (entry n d ∷ pre) post m files h e =
    elim (Option-cases (lookup (clean n) m)) [
      | inl new ↦
          read_tar-taken name content c pre post (insert (clean n) d m) files
            (or_else-insert (clean name) (clean n) d (content_of (clean name) pre) m new ∙ h)
            (rw (add_file-none n d m new) at e)
      | inr (old, taken) ↦
          let no_file : err (file_collision (clean n)) ≡ ok files =
            rw (add_file-some n d old m taken) at e in
          cc
    ]

-- An archive in which a file has the clean path of an earlier one is refused.
pub new_tar_fs_collision :
    (name content c : Text) (pre post : List TarEvent) (files : List (Text × Text))
    → content_of (clean name) pre ≡ some c
    → new_tar_fs (pre ++ entry name content ∷ post) ≢ ok files
unfolding new_tar_fs lookup
new_tar_fs_collision name content c pre post files h =
    read_tar-taken name content c pre post [] files h

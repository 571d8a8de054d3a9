-- ===== src/Star/Files.antt =====
-- star/fs.go and ReadTar of ext/tar.go: the files of a tar archive, by their clean paths.
pub mod Dir
pub mod Paths
pub mod Reads
pub mod Write
mod Tests
use starlark_worker.Prelude.{
  ℕ, zero, suc, Bool, true, false, Option, none, some, List, [], ◌∷◌, ◌++◌, reverse, Text, text,
  ◌==◌, nat_eq, list_eq, has_prefix, split, if◌then◌else◌, Result, ok, err, ◌>>=◌, lookup, insert,
}
use starlark_worker.Star.Errors.{Err, file_collision, not_exist, invalid_state}

-- One part of path.Clean on a rooted path, between two slashes; the parts kept so far stand
-- backwards.
clean_part : List Text → Text → List Text
clean_part kept part =
    if part == []
    then kept
    else if part == text "."
    then kept
    else if part == text ".."
    then (elim kept [ [] ↦ [] | k ∷ ks ↦ ks ])
    else part ∷ kept

clean_parts : List Text → List Text → List Text
unfolding clean_part
clean_parts kept [] = kept
clean_parts kept (part ∷ parts) = clean_parts (clean_part kept part) parts

pub join_parts : List Text → Text
join_parts [] = b'/' ∷ []
join_parts (p ∷ []) = b'/' ∷ p
join_parts (p ∷ ps) = b'/' ∷ p ++ join_parts ps

-- `path.Clean("/" + p)`
unfoldable pub clean : Text → Text
unfolding split clean_parts join_parts
clean p = join_parts (reverse (clean_parts [] (split b'/' [] (b'/' ∷ p))))

-- path.IsAbs
abbrev pub is_abs : Text → Bool
is_abs p = has_prefix p (text "/")

-- What the readers of compress/gzip and archive/tar hand over until the end of the archive: a file
-- or a failure.
pub data TarEvent : Type 0 where
  entry : (name content : Text) → TarEvent
  broken : Err → TarEvent

-- The loop of ReadTar, with the state that the callback changes.
unfoldable pub read_tar :
    {S : Type 0} → List TarEvent → (Text → Text → S → Result Err S) → S → Result Err S
read_tar [] callback s = ok s
read_tar (broken e ∷ events) callback s = err e
read_tar (entry name content ∷ events) callback s = do
  t ← callback name content s
  read_tar events callback t

-- The callback of NewTarFS
unfoldable pub add_file : Text → Text → List (Text × Text) → Result Err (List (Text × Text))
add_file p content files =
    let q = clean p in
    elim (lookup q files) [ none ↦ ok (insert q content files) | some _ ↦ err (file_collision q) ]

-- NewTarFS
unfoldable pub new_tar_fs : List TarEvent → Result Err (List (Text × Text))
unfolding read_tar
new_tar_fs events = read_tar events add_file []

-- (*_TarFS).Read
unfoldable pub read : List (Text × Text) → Text → Result Err Text
read files p =
    let q = clean p in
    if is_abs q
    then (elim (lookup q files) [ none ↦ err (not_exist q) | some content ↦ ok content ])
    else err invalid_state

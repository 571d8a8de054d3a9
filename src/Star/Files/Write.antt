-- ===== src/Star/Files/Write.antt =====
-- WriteTar of ext/tar.go, and what NewTarFS of star/fs.go reads of its archive. The map of files is
-- the list of its entries in the order that the loop takes them, which can be any.
use starlark_worker.Prelude.{
  ◌≡◌, refl, ◌∙◌, false, none, some, List, [], ◌∷◌, map, Text, ◌==◌, nat_eq, list_eq, Result, ok,
  ◌>>=◌, lookup, insert, lookup-insert, All, All-map_of, beq_refl,
}
use starlark_worker.Star.Files.{clean, TarEvent, entry, read_tar, add_file, new_tar_fs, read}
use starlark_worker.Star.Files.Reads.{content_of, read-new_tar_fs}

-- The writers of archive/tar and compress/gzip: a header with the body behind it, and the two Close;
-- `T` is the type of what they have written.
pub record TarWriter (W T E : Type 0) : Type 0 where
  pub new_writer : W
  pub put : Text → Text → W → Result E W
  pub close : W → Result E T

module _ {W T E : Type 0} (writer : TarWriter W T E) where
  open writer use {new_writer, put, close}

  -- The loop of WriteTar.
  unfoldable pub put_files : List (Text × Text) → W → Result E W
  put_files [] w = ok w
  put_files ((path, body) ∷ files) w = put path body w >>= λ v. put_files files v

  -- WriteTar
  unfoldable pub write_tar : List (Text × Text) → Result E T
  unfolding put_files
  write_tar files = put_files files new_writer >>= λ w. close w

abbrev pub event : Text × Text → TarEvent
event (name, content) = entry name content

-- No two names have the same clean path.
abbrev pub CleanApart : List (Text × Text) → Type 0
CleanApart [] = Unit
CleanApart ((n, c) ∷ files) = All (λ e. (clean n == clean e.0) ≡ false) files × CleanApart files

still_new :
    (n c : Text) (acc files : List (Text × Text))
    → All (λ e. (clean n == clean e.0) ≡ false) files
    → All (λ e. lookup (clean e.0) acc ≡ none) files
    → All (λ e. lookup (clean e.0) (insert (clean n) c acc) ≡ none) files
still_new n c acc [] f g = tt
still_new n c acc ((m, d) ∷ files) (f, fs) (g, gs) =
    (rw (lookup-insert (clean n) (clean m) c acc, f) g, still_new n c acc files fs gs)

accepted :
    (files acc : List (Text × Text))
    → CleanApart files
    → All (λ e. lookup (clean e.0) acc ≡ none) files
    → (fs : List (Text × Text)) × (read_tar (map event files) add_file acc ≡ ok fs)
unfolding read_tar add_file
accepted [] acc apart new = (acc, refl)
accepted ((n, c) ∷ files) acc (first, apart) (none_n, new) =
    let next = insert (clean n) c acc in
    let (fs, e) = accepted files next apart (still_new n c acc files first new) in
    (fs, rw (none_n, add_file) e)

none_found : (files : List (Text × Text)) → All (λ e. lookup {V = Text} (clean e.0) [] ≡ none) files
unfolding lookup
none_found [] = tt
none_found (e ∷ files) = (refl, none_found files)

behind :
    (n c : Text) (events : List TarEvent) (files : List (Text × Text))
    → All (λ e. (clean n == clean e.0) ≡ false) files
    → All (λ e. content_of (clean e.0) events ≡ some e.1) files
    → All (λ e. content_of (clean e.0) (entry n c ∷ events) ≡ some e.1) files
behind n c events [] f g = tt
behind n c events (e ∷ files) (f, fs) (g, gs) = (rw f g, behind n c events files fs gs)

contents :
    (files : List (Text × Text))
    → CleanApart files
    → All (λ e. content_of (clean e.0) (map event files) ≡ some e.1) files
contents [] apart = tt
contents ((n, c) ∷ files) (first, apart) =
    (rw (beq_refl (clean n)) refl, behind n c (map event files) files first (contents files apart))

module _ {W T E : Type 0} (writer : TarWriter W T E) where
  -- The archive that WriteTar makes of files, in whatever order it takes them, is accepted by
  -- NewTarFS, and each file reads under its name as it was, if no two names have the same clean path.
  -- It is assumed that the readers of the archive hand over what the writers got, in that order.
  pub read-write_tar :
      (unpack : T → List TarEvent)
      (unpacked : (files : List (Text × Text)) (tar : T)
        → write_tar writer files ≡ ok tar
        → unpack tar ≡ map event files)
      (files : List (Text × Text)) (tar : T)
      → CleanApart files
      → write_tar writer files ≡ ok tar
      → (fs : List (Text × Text)) × (new_tar_fs (unpack tar) ≡ ok fs)
        × All (λ e. read fs e.0 ≡ ok e.1) files
  unfolding new_tar_fs
  read-write_tar unpack unpacked files tar apart h =
      let same = unpacked files tar h in
      let (fs, e) = accepted files [] apart (none_found files) in
      let opened : new_tar_fs (unpack tar) ≡ ok fs = rw same e in
      (
        fs,
        opened,
        All-map_of (λ e. content_of (clean e.0) (map event files) ≡ some e.1) files
            (λ e c. read-new_tar_fs (unpack tar) fs e.0 opened ∙ rw (same, c) refl)
            (contents files apart),
      )

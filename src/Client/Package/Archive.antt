-- ===== src/Client/Package/Archive.antt =====
-- What `Package` of client/cadence_client/client.go puts into the archive.
use starlark_worker.Prelude.{◌≡◌, List, [], ◌∷◌, Text, list_eq, ok, ◌>>=◌}
use starlark_worker.Client.Package.{Disk}

module _ {E : Type 0} (disk : Disk E) where
  open disk use {abs, rel, read_file}

  -- The entries are the files in their order, each under its path from the root.
  abbrev pub Entries : Text → List Text → List (Text × Text) → Type 0
  Entries root [] [] = Unit
  Entries root (p ∷ ps) ((name, content) ∷ es) =
      (rel root p ≡ ok name) × (read_file p ≡ ok content) × Entries root ps es
  Entries root _ _ = ⊥

-- ===== src/Client/Package.antt =====
-- client/cadence_client/client.go: `load`, which visits a script and all that it loads, and
-- `Package`, which puts what it visits into an archive. client/temporal_client/client.go has the same
-- two functions.
pub mod Closed
pub mod Archive
pub mod Ends
mod Tests
use starlark_worker.Prelude.{
  ℕ, zero, suc, Bool, not, Option, none, some, List, [], ◌∷◌, ◌++◌, Text, text, ◌==◌, nat_eq,
  list_eq, has_prefix, if◌then◌else◌, Result, ok, err, ◌>>=◌, insert, contains,
}
use starlark_worker.Star.Load.{has_suffix}

-- What the code calls: filepath.Abs, filepath.Join and filepath.Rel, os.ReadFile, and
-- starlark.SourceProgramOptions, by the paths that the program loads, in their order.
pub record Disk (E : Type 0) : Type 0 where
  pub abs : Text → Result E Text
  pub join : Text → Text → Text
  pub rel : Text → Text → Result E Text
  pub read_file : Text → Result E Text
  pub source_program : Text → Result E (List Text)
  pub out_of_root : Text → Text → E

-- star.PluginPrefix
abbrev pub is_plugin : Text → Bool
is_plugin path = has_prefix path (text "@")

-- One call after the other, as long as there is no error and enough fuel.
unfoldable pub each {ℓ κ μ} :
    {E : Type ℓ} {A : Type κ} {S : Type μ}
    → (A → S → Option (Result E S))
    → List A
    → S
    → Option (Result E S)
each call [] s = some (ok s)
each call (a ∷ others) s = elim (call a s) [
  | none ↦ none
  | some (err e) ↦ some (err e)
  | some (ok t) ↦ each call others t
]

module _ {E : Type 0} (disk : Disk E) where
  open disk use {abs, join, rel, read_file, source_program, out_of_root}

  -- The path of a file below the root `root`, which is absolute.
  unfoldable pub resolve : Text → Text → Result E Text
  resolve root path =
      let joined = if has_prefix path (text "//") then join root path else path in
      abs joined >>= λ p. if has_prefix p root then ok p else err (out_of_root root p)

  module _ {S : Type 0} (callback : Text → S → Result E S) where
    -- `cache[path] = true` and the callback. The cache is the list of its keys, the last at its end.
    unfoldable pub visit : Text → List Text × S → Result E (List Text × S)
    visit p (cache, s) = callback p s >>= λ t. ok (cache ++ p ∷ [], t)

    -- A file at its absolute path: what it loads, once it is visited itself.
    unfoldable pub loads_of : Text → List Text × S → Result E (List Text × (List Text × S))
    unfolding visit
    loads_of p st =
        if contains p (st.0)
        then ok ([], st)
        else if not (has_suffix p (text ".star"))
        then (do t ← visit p st; ok ([], t))
        else do loads ← source_program p; t ← visit p st; ok (loads, t)

    -- A path that names no plugin, up to what it loads; with the absolute root.
    unfoldable pub enter :
        Text → Text → List Text × S → Result E (Text × (List Text × (List Text × S)))
    unfolding resolve loads_of
    enter root path st = do r ← abs root; p ← resolve r path; t ← loads_of p st; ok (r, t)

    -- load; the first argument is the fuel, `none` its end. The cache and the state are returned
    -- with a nil error alone, since all callers return at an error.
    unfoldable pub load : ℕ → Text → Text → List Text × S → Option (Result E (List Text × S))
    unfolding enter each
    load zero root path st = none
    load (suc n) root path st =
        if is_plugin path then some (ok st) else (elim (enter root path st) [
          | err e ↦ some (err e)
          | ok (r, (loads, t)) ↦ each (λ l u. load n r l u) loads t
        ])

  -- onLoad
  unfoldable pub on_load : Text → Text → List (Text × Text) → Result E (List (Text × Text))
  on_load root p files = do name ← rel root p; content ← read_file p; ok (insert name content files)

  -- Package, up to the files that ext.WriteTar gets.
  unfoldable pub package_files : ℕ → Text → Text → Option (Result E (List (Text × Text)))
  unfolding load on_load
  package_files n root path = elim (abs root) [
    | err e ↦ some (err e)
    | ok r ↦ elim (load (on_load r) n r path ([], [])) [
      | none ↦ none
      | some (err e) ↦ some (err e)
      | some (ok (cache, files)) ↦ some (ok files)
    ]
  ]

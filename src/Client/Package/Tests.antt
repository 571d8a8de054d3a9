-- ===== src/Client/Package/Tests.antt =====
-- Runs of the model of client/cadence_client/client.go, and the theorems at a disk on which two
-- scripts load each other.
use starlark_worker.Prelude.{
  String, ◌≡◌, ◌⊎◌, inl, inr, refl, sym, true, some, List, [], ◌∷◌, ◌++◌, Text, text, ◌==◌, nat_eq,
  list_eq, list_beq, list_beq_iff, insert, if◌then◌else◌, Result, ok, err, ok_injective, Bool-cases,
  contains, drop, All, arith,
}
use starlark_worker.Client.Package.{Disk, resolve, package_files}
use starlark_worker.Client.Package.Closed.{imports}
use starlark_worker.Client.Package.Ends.{Known, package_files_ends}

abbrev a_star : Text
a_star = text "/r/a.star"

abbrev b_star : Text
b_star = text "/r/b.star"

abbrev data_txt : Text
data_txt = text "/r/data.txt"

abbrev program : Text → List Text
program p =
    if p == a_star
    then text "//b.star" ∷ text "@json" ∷ []
    else if p == b_star
    then text "//a.star" ∷ text "/r/data.txt" ∷ []
    else []

-- The paths are clean; a file's content is its path.
abbrev circle : Disk String
circle = record {
  abs = λ p. ok p;
  join = λ r p. r ++ drop 1 p;
  rel = λ r p. ok p;
  read_file = λ p. ok p;
  source_program = λ p. ok (program p);
  out_of_root = λ r p. "out-of-root";
}

-- A directory beside the root whose name begins with the root's name counts as within it.
beside :
    package_files circle 2 (text "/r") (text "/root2/x")
    ≡ some (ok ((text "/root2/x", text "/root2/x") ∷ []))
unfolding package_files list_beq insert
beside = refl

outside : package_files circle 2 (text "/r") (text "/x") ≡ some (err "out-of-root")
unfolding package_files list_beq insert
outside = refl

abbrev known : List Text
known = a_star ∷ b_star ∷ data_txt ∷ []

-- A known file is one of the three.
known-cases : (p : Text) → contains p known ≡ true → (p ≡ a_star) ⊎ (p ≡ b_star) ⊎ (p ≡ data_txt)
known-cases p h = elim (Bool-cases (p == a_star)) [
  | inl e ↦ inl ((list_beq_iff nat_eq p a_star).0 e)
  | inr e ↦ elim (Bool-cases (p == b_star)) [
    | inl f ↦ inr (inl ((list_beq_iff nat_eq p b_star).0 f))
    | inr f ↦ inr (inr ((list_beq_iff nat_eq p data_txt).0 (ground arith)))
  ]
]

All-known :
    {ls loads : List Text}
    → ls ≡ loads
    → All (Known circle (text "/r") known) ls
    → All (Known circle (text "/r") known) loads
All-known e h = rw (sym e) h

loads_known :
    (p : Text) (loads : List Text)
    → contains p known ≡ true
    → imports circle (text "/r") p ≡ ok loads
    → All (Known circle (text "/r") known) loads
unfolding list_beq resolve
loads_known p loads h i = elim (known-cases p h) [
  | inl e ↦ All-known (ok_injective (rw e at i)) (inr (inr (b_star, refl, refl)), (inl refl, tt))
  | inr (inl e) ↦
      All-known (ok_injective (rw e at i))
        (inr (inr (a_star, refl, refl)), (inr (inr (data_txt, refl, refl)), tt))
  | inr (inr e) ↦ All-known (ok_injective (rw e at i)) tt
]

package_files_ends_example :
    (r : Result String (List (Text × Text))) × (package_files circle 4 (text "/r") (text "//a.star")
      ≡ some r)
unfolding list_beq resolve
package_files_ends_example =
    package_files_ends circle (λ p q h. refl) 4 (text "/r") (text "/r") (text "//a.star") known refl
      loads_known (inr (inr (a_star, refl, refl))) (omega arith)

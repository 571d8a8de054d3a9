-- ===== src/Service/Threads/Logs.antt =====
-- Which messages service/thread.go keeps.
use starlark_worker.Prelude.{
  ℕ, zero, suc, ◌+◌, ◌-◌, ◌≤◌, ◌<◌, ℤ, pos, negsuc, ◌≡◌, refl, sym, ap, ◌∙◌, true, false, ◌⊎◌, inl,
  inr, List, [], ◌∷◌, ◌++◌, Text, length, length-append, length-drop, drop, arith,
}
use mathlib.Core.List.{append_assoc, append-nil}
use starlark_worker.Service.Threads.{above, rest_of, print}

-- The messages in `logs`, and those printed after them, as the list ends up.
abbrev pub prints : ℤ → List Text → List Text → List Text
prints ll [] logs = logs
prints ll (m ∷ msgs) logs = prints ll msgs (print ll m logs)

-- A log length below 0 keeps as little as 0 does.
abbrev pub capacity : ℤ → ℕ
capacity (pos n) = n
capacity (negsuc n) = 0

-- The last messages that there is room for.
abbrev pub recent : ℤ → List Text → List Text
recent ll msgs = drop (length msgs - capacity ll) msgs

rest_of-drop : (k : ℕ) (xs : List Text) → rest_of (drop k xs) ≡ drop (suc k) xs
rest_of-drop zero [] = refl
rest_of-drop zero (x ∷ xs) = refl
rest_of-drop (suc k) [] = refl
rest_of-drop (suc k) (x ∷ xs) = rest_of-drop k xs

drop-append : (k : ℕ) (xs ys : List Text) → k ≤ length xs → drop k (xs ++ ys) ≡ drop k xs ++ ys
drop-append zero xs ys h = refl
drop-append (suc k) [] ys h = absurd (omega arith)
drop-append (suc k) (x ∷ xs) ys h = drop-append k xs ys (omega arith)

above-capacity : (n : ℕ) (ll : ℤ) → capacity ll < n → above n ll ≡ true
above-capacity n (pos m) h = ground arith
above-capacity n (negsuc m) h = refl

above-room : (n : ℕ) (ll : ℤ) → 0 < n → n ≤ capacity ll → above n ll ≡ false
above-room n (pos m) p h = ground arith
above-room n (negsuc m) p h = absurd (omega arith)

le-or-lt : (a b : ℕ) → (a ≤ b) ⊎ (b < a)
le-or-lt zero b = inl (omega arith)
le-or-lt (suc a) zero = inr (omega arith)
le-or-lt (suc a) (suc b) = elim (le-or-lt a b) [
  | inl h ↦ inl (omega arith)
  | inr h ↦ inr (omega arith)
]

print-recent :
    (ll : ℤ) (pre : List Text) (m : Text) → print ll m (recent ll pre) ≡ recent ll (pre ++ m ∷ [])
unfolding print
print-recent ll pre m = elim (le-or-lt (capacity ll) (length pre)) [
  | inl h ↦
      let k = length pre - capacity ll in
      let full = above-capacity (length (recent ll pre ++ m ∷ [])) ll (pushed_length k h) in
      rw full (
        ap rest_of (sym (drop-append k pre (m ∷ []) (omega arith)))
        ∙ rest_of-drop k (pre ++ m ∷ [])
        ∙ ap (λ n. drop n (pre ++ m ∷ [])) {x = suc k} (one_more h))
  | inr h ↦
      let all = ap (λ n. drop n pre) {x = length pre - capacity ll} {y = 0} (omega arith) in
      let some_room = above-room (length (pre ++ m ∷ [])) ll pushed_some (pushed_room h) in
      rw all (rw some_room (ap (λ n. drop n (pre ++ m ∷ [])) {x = 0} (no_more h)))
]
  where
    one : length (pre ++ m ∷ []) ≡ length pre + 1
    one = length-append pre (m ∷ [])

    pushed_length :
        (k : ℕ) → capacity ll ≤ length pre → capacity ll < length (recent ll pre ++ m ∷ [])
    pushed_length k h =
        rw (length-append (recent ll pre) (m ∷ []), length-drop (length pre - capacity ll) pre)
          (omega arith)

    one_more :
        capacity ll ≤ length pre
        → suc (length pre - capacity ll) ≡ length (pre ++ m ∷ []) - capacity ll
    one_more h = let e = one in omega arith

    pushed_some : 0 < length (pre ++ m ∷ [])
    pushed_some = let e = one in omega arith

    pushed_room : length pre < capacity ll → length (pre ++ m ∷ []) ≤ capacity ll
    pushed_room h = let e = one in omega arith

    no_more : length pre < capacity ll → 0 ≡ length (pre ++ m ∷ []) - capacity ll
    no_more h = let e = one in omega arith

prints-recent_from :
    (ll : ℤ) (msgs pre : List Text) → prints ll msgs (recent ll pre) ≡ recent ll (pre ++ msgs)
prints-recent_from ll [] pre = ap (recent ll) (sym (append-nil pre))
prints-recent_from ll (m ∷ msgs) pre =
    ap (prints ll msgs) (print-recent ll pre m)
    ∙ prints-recent_from ll msgs (pre ++ m ∷ [])
    ∙ ap (recent ll) (append_assoc pre (m ∷ []) msgs)

-- Whatever a script prints, the log has the last messages, in their order, as many as the log
-- length, and none if that is negative.
pub prints-recent : (ll : ℤ) (msgs : List Text) → prints ll msgs [] ≡ recent ll msgs
prints-recent ll msgs =
    ap (prints ll msgs) (sym (drop_nil (0 - capacity ll))) ∙ prints-recent_from ll msgs []
  where
    drop_nil : (k : ℕ) → drop {A = Text} k [] ≡ []
    drop_nil zero = refl
    drop_nil (suc k) = refl

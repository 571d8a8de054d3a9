-- ===== src/Prelude/Int.antt =====
-- Signed integers over the native numbers; `negsuc n` is -(n + 1).
use Prim.Native.Nat.{ℕ, zero, suc, ◌+◌, ◌-◌}
use mathlib.Core.Path.{◌≡◌}
use mathlib.Core.Logic.{◌↔◌}
use mathlib.Core.Bool.{Bool, true, false}
use native.Mathlib.Omega.{arith}
use starlark_worker.Prelude.Tests.{Eq, ◌==◌, nat_eq, ltb, if◌then◌else◌}

pub data ℤ : Type 0 where
  pos : ℕ → ℤ
  negsuc : ℕ → ℤ

abbrev int_beq : ℤ → ℤ → Bool
int_beq (pos m) (pos n) = m == n
int_beq (pos m) (negsuc n) = false
int_beq (negsuc m) (pos n) = false
int_beq (negsuc m) (negsuc n) = m == n

pub int_beq_iff : (x y : ℤ) → (int_beq x y ≡ true) ↔ (x ≡ y)
int_beq_iff (pos m) (pos n) = ground (arith, nat_eq.beq_iff m n)
int_beq_iff (pos m) (negsuc n) = ground arith
int_beq_iff (negsuc m) (pos n) = ground arith
int_beq_iff (negsuc m) (negsuc n) = ground (arith, nat_eq.beq_iff m n)

instance abbrev pub int_eq : Eq ℤ
int_eq = record { beq = int_beq; beq_iff = int_beq_iff }

abbrev pub sub_nat : ℕ → ℕ → ℤ
sub_nat a b = if ltb a b then negsuc (b - a - 1) else pos (a - b)

infixl 30 ◌+ℤ◌
abbrev pub ◌+ℤ◌ : ℤ → ℤ → ℤ
pos m +ℤ pos n = pos (m + n)
pos m +ℤ negsuc n = sub_nat m (n + 1)
negsuc m +ℤ pos n = sub_nat n (m + 1)
negsuc m +ℤ negsuc n = negsuc (m + n + 1)

infixl 30 ◌-ℤ◌
abbrev pub ◌-ℤ◌ : ℤ → ℤ → ℤ
x -ℤ pos zero = x
x -ℤ pos (suc n) = x +ℤ negsuc n
x -ℤ negsuc n = x +ℤ pos (n + 1)

-- What was added to a number is left when it is taken off; the first has moved on by `k`.
pub +ℤ-sub : (s t : ℤ) (k : ℕ) → (s +ℤ pos k) +ℤ (t -ℤ s) ≡ t +ℤ pos k
+ℤ-sub (pos zero) (pos n) k = ground arith
+ℤ-sub (pos (suc m)) (pos n) k = ground arith
+ℤ-sub (pos zero) (negsuc n) k = ground arith
+ℤ-sub (pos (suc m)) (negsuc n) k = ground arith
+ℤ-sub (negsuc m) (pos n) k = ground arith
+ℤ-sub (negsuc m) (negsuc n) k = ground arith

-- ===== src/Prelude/Float.antt =====
-- Go's `float64`: the type and the operations that the code uses, as a parameter of the model.
use Prim.Native.Nat.{ℕ, ◌+◌, ◌-◌, ◌*◌, ◌/◌}
use mathlib.Core.Bool.{Bool}
use gmiter.Prelude.Tests.{ltb, leb, ◌==◌}

pub record Float64 : Type 1 where
  pub F : Type 0
  pub of_uint64 : ℕ → F
  -- The conversion that drops the fraction.
  pub to_uint64 : F → ℕ
  -- The same for an int64, as a bit pattern.
  pub of_int64 : ℕ → F
  pub to_int64 : F → ℕ
  pub add : F → F → F
  pub sub : F → F → F
  pub mul : F → F → F
  pub div : F → F → F
  pub abs : F → F
  pub ceil : F → F
  pub round : F → F
  pub lt : F → F → Bool
  pub le : F → F → Bool
  pub eq : F → F → Bool
  -- The literal 0.00000001.
  pub precision : F

-- `Float64Equals` of util/math.go.
unfoldable pub float64_equals : (f : Float64) → f.F → f.F → Bool
float64_equals f x y = f.lt (f.abs (f.sub x y)) f.precision

-- Thousandths, on which the examples run.
abbrev pub thousandths : Float64
thousandths = record {
  F = ℕ;
  of_uint64 = λ n. n * 1000;
  to_uint64 = λ x. x / 1000;
  of_int64 = λ n. n * 1000;
  to_int64 = λ x. x / 1000;
  add = λ x y. x + y;
  sub = λ x y. x - y;
  mul = λ x y. x * y / 1000;
  div = λ x y. x * 1000 / y;
  abs = λ x. x;
  round = λ x. (x + 500) / 1000 * 1000;
  ceil = λ x. (x + 999) / 1000 * 1000;
  lt = ltb;
  le = leb;
  eq = ◌==◌;
  precision = 1;
}

-- ===== src/Sample/Floats.antt =====
-- float64, as an abstract type with the operations that the agent uses.
use mikroscope.Common.{ℕ, ◌+◌, ◌-◌, ◌*◌, ◌/◌, leb, ltb, if◌then◌else◌, Bool, ℤ, pos, negsuc}

pub record Floats (F : Type 0) : Type 0 where
  pub of_ℕ : ℕ → F
  pub of_ℤ : ℤ → F
  pub add : F → F → F
  pub sub : F → F → F
  pub mul : F → F → F
  pub div : F → F → F
  pub min : F → F → F
  pub le : F → F → Bool
  pub lt : F → F → Bool
  pub to_float32 : F → F

-- Millionths, rounded down: a concrete instance for the examples.
abbrev pub micro : Floats ℕ
micro = record {
  of_ℕ = λ n. n * 1000000;
  of_ℤ = elim [ pos n ↦ n * 1000000 | negsuc n ↦ 0 ];
  add = λ a b. a + b;
  sub = λ a b. a - b;
  mul = λ a b. a * b / 1000000;
  div = λ a b. a * 1000000 / b;
  min = λ a b. if leb a b then a else b;
  le = leb;
  lt = ltb;
  to_float32 = λ a. a;
}

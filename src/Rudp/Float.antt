-- ===== src/Rudp/Float.antt =====
-- Python's floats, which carry times and the congestion window. The rounding of the operations is a
-- parameter; what a theorem needs of them is a law that it names.
use rudp_agent_stack.Base.{ℕ, ◌≡◌, Bool, true, false, if◌then◌else◌}

pub record Float : Type 1 where
  pub F : Type 0
  pub of_nat : ℕ → F
  -- `decimal n d` is the literal n / d, such as 0.125
  pub decimal : ℕ → ℕ → F
  pub add : F → F → F
  pub sub : F → F → F
  pub mul : F → F → F
  pub div : F → F → F
  pub abs : F → F
  pub lt : F → F → Bool
  pub le : F → F → Bool
  -- int(x // n)
  pub floor_div : F → ℕ → ℕ

-- The order laws of the floats other than NaN, and of the literals that set the timer's bounds.
pub record IsOrderedFloat (f : Float) : Type 0 where
  pub le_refl : (x : f.F) → f.le x x ≡ true
  pub le_trans : (x y z : f.F) → f.le x y ≡ true → f.le y z ≡ true → f.le x z ≡ true
  pub le_of_not_lt : (x y : f.F) → f.lt x y ≡ false → f.le y x ≡ true
  pub le_of_lt : (x y : f.F) → f.lt x y ≡ true → f.le x y ≡ true
  -- Doubling a number that is not negative does not make it less.
  pub le_double : (x : f.F) → f.le (f.of_nat 0) x ≡ true → f.le x (f.mul x (f.decimal 20 10)) ≡ true
  -- 0 <= 0.1 <= 0.5 <= 4
  pub literals_zero : f.le (f.of_nat 0) (f.decimal 1 10) ≡ true
  pub literals_low : f.le (f.decimal 1 10) (f.decimal 5 10) ≡ true
  pub literals_high : f.le (f.decimal 5 10) (f.of_nat 4) ≡ true

module _ (f : Float) where
  open f use {F, lt}

  -- max(x, y) and min(x, y) of Python: the first of two that compare equal
  abbrev pub maximum : F → F → F
  maximum x y = if lt x y then y else x

  abbrev pub minimum : F → F → F
  minimum x y = if lt y x then y else x

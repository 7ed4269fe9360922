-- ===== src/Samples.antt =====
-- Concrete parameters for the tests.
use rudp_agent_stack.Base.{ℕ, ◌+◌, ◌-◌, ◌*◌, ◌/◌, ltb, leb}
use rudp_agent_stack.Rudp.Float.{Float}

-- Floats as thousandths, rounded down; differences stop at zero.
abbrev pub milli : Float
milli = record {
  F = ℕ;
  of_nat = λ n. n * 1000;
  decimal = λ n d. n * 1000 / d;
  add = λ a b. a + b;
  sub = λ a b. a - b;
  mul = λ a b. a * b / 1000;
  div = λ a b. a * 1000 / b;
  abs = λ a. a;
  lt = ltb;
  le = leb;
  floor_div = λ a n. a / 1000 / n;
}

-- ===== src/Trading/Whole.antt =====
-- Whole numbers in place of floats, for runs on concrete inputs; what is below zero is zero.
use artic_trader.Prelude.{ℕ, ◌+◌, ◌-◌, ◌*◌, ◌/◌, ◌==◌, ltb, leb, some}
use artic_trader.Trading.Float.{FloatOps}

abbrev pub whole : FloatOps ℕ
whole = record {
  lit = λ n. n;
  add = λ x y. x + y;
  sub = λ x y. x - y;
  mul = λ x y. x * y;
  quot = λ x y. x / y;
  neg = λ x. 0;
  lt = ltb;
  le = leb;
  eq = λ x y. x == y;
  trunc = λ x. some x;
  round6 = λ x. x;
}

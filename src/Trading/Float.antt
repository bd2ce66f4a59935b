-- ===== src/Trading/Float.antt =====
-- Python's `float`. There are no floats here: the type and its operations are an instance argument,
-- so a theorem holds of every arithmetic with these operations, rounding and NaN included, but for
-- the laws that it names.
use artic_trader.Prelude.{ℕ, Bool, not, Option, none, some, if◌then◌else◌}
use artic_trader.Prelude.Exec.{Result, ok, err}

-- The exceptions that the trading code can raise by itself.
pub data PyError : Type 0 where
  zero_division type_error overflow_error value_error index_error : PyError
  -- raised by a call outside
  outside_error : PyError

pub record FloatOps (A : Type 0) : Type 0 where
  pub lit : ℕ → A
  pub add : A → A → A
  pub sub : A → A → A
  pub mul : A → A → A
  -- the quotient by a number that is not zero
  pub quot : A → A → A
  pub neg : A → A
  pub lt : A → A → Bool
  pub le : A → A → Bool
  pub eq : A → A → Bool
  -- `int(x)` as a number again; `none` where Python raises, at NaN and the infinities
  pub trunc : A → Option A
  -- `round(x, 6)`
  pub round6 : A → A

module _ {A : Type 0} ⦃o : FloatOps A⦄ where
  -- x / y
  abbrev pub py_div : A → A → Result PyError A
  py_div x y = if o.eq y (o.lit 0) then err zero_division else ok (o.quot x y)

  -- The truth of a float: all but zero are true, NaN too.
  abbrev pub truthy : A → Bool
  truthy x = not (o.eq x (o.lit 0))

  -- max(x, y): the first, unless the second is greater
  abbrev pub py_max : A → A → A
  py_max x y = if o.lt x y then y else x

  -- min(x, y): the first, unless the second is less
  abbrev pub py_min : A → A → A
  py_min x y = if o.lt y x then y else x

  -- abs(x)
  abbrev pub py_abs : A → A
  py_abs x = if o.lt x (o.lit 0) then o.neg x else x

  -- An attribute that must be a number: arithmetic on `None` raises.
  abbrev pub number : Option A → Result PyError A
  number none = err type_error
  number (some x) = ok x

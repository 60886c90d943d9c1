-- ===== src/Core/Float.antt =====
-- The floating point operations that the program uses of `f64`. They are a parameter of the
-- definitions, and no law of theirs is assumed: what is shown holds for every rounding.
use wattwarden.Base.{ℕ, Text, Bool, Option, ℤ}

pub record Float (F : Type 0) : Type 0 where
  -- `as f64`
  pub of_nat : ℕ → F
  -- The literal whose value is a quotient, such as 0.4 = 4 / 10.
  pub ratio : ℕ → ℕ → F
  pub add : F → F → F
  pub sub : F → F → F
  pub mul : F → F → F
  pub div : F → F → F
  -- `f64::min`, `f64::max`, `round` and `ceil`
  pub least : F → F → F
  pub greatest : F → F → F
  pub round : F → F
  pub ceil : F → F
  pub lt : F → F → Bool
  pub le : F → F → Bool
  -- `as u32` and `as usize`, which truncate and saturate
  pub as_u32 : F → ℕ
  pub as_usize : F → ℕ
  -- `abs`, and `i64 as f64` and back
  pub abs : F → F
  pub of_int : ℤ → F
  pub as_i64 : F → ℤ
  -- `str::parse`
  pub parse : Text → Option F
  -- `to_string`, and `format!("{:.1}")`
  pub display : F → Text
  pub one_decimal : F → Text
  -- `format!("{:.0}")`
  pub no_decimals : F → Text

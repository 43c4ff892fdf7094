-- ===== src/Json/Numbers.antt =====
-- The arithmetic of JavaScript numbers, which is a parameter.
use telecam.Prelude.{Bool}

pub record Arithmetic (N : Type 0) : Type 0 where
  pub plus : N → N → N
  pub minus : N → N → N
  pub times : N → N → N
  pub over : N → N → N
  -- `Math.round`
  pub round : N → N
  -- `a < b`
  pub less : N → N → Bool
  -- `a <= b`, and `-a`
  pub at_most : N → N → Bool
  pub negate : N → N

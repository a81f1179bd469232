-- ===== src/Floats.antt =====
-- The numbers of the amounts, odds and factors: JavaScript numbers and the DECIMAL columns. Their
-- arithmetic is not defined here: it is an argument of the operations that use it.
use betting_service.Prelude.{ℕ, Bool}

pub record Floats (N : Type 0) : Type 0 where
  pub zero_num : N
  pub one_num : N
  pub add : N → N → N
  pub sub : N → N → N
  pub mul : N → N → N
  pub div : N → N → N
  -- `a < b` and `a === b`
  pub less : N → N → Bool
  pub same : N → N → Bool
  pub of_ℕ : ℕ → N
  -- what a column DECIMAL(20, 2) holds once the number is written to it
  pub decimal : N → N

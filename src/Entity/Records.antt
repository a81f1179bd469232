-- ===== src/Entity/Records.antt =====
-- The smaller tables: winning, settlement, bet_status, bet_closure, cronjob, bet_cancel and
-- settlement_rollback, in src/entity.
use betting_service.Prelude.{ℕ, String, Option, List}
use betting_service.Int.{ℤ}

pub record Winning (N : Type 0) : Type 0 where
  pub id : ℕ
  -- unique
  pub bet_id : ℕ
  pub client_id : ℕ
  pub user_id : ℕ
  pub currency : String
  pub winning_before_tax : N
  pub tax_on_winning : N
  pub winning_after_tax : N

-- Unique in `event_id`, `market_id`, `specifier` and `outcome_id`.
pub record Settlement (N : Type 0) : Type 0 where
  pub id : ℕ
  pub event_id : ℕ
  pub event_type : String
  pub event_prefix : String
  pub producer_id : ℕ
  pub market_id : ℕ
  pub specifier : String
  pub outcome_id : String
  pub ft_score : Option String
  pub ht_score : Option String
  pub status : ℤ
  pub processed : ℕ
  pub void_factor : N
  pub dead_heat_factor : N

pub record BetStatus : Type 0 where
  -- unique
  pub bet_id : ℕ
  pub status : ℤ
  -- its UTF-16 code units; at most 300 fit
  pub description : List ℕ

pub record BetClosure : Type 0 where
  -- unique
  pub bet_id : ℕ

pub record Cronjob : Type 0 where
  -- unique
  pub name : String
  pub status : ℤ

pub record BetCancel : Type 0 where
  pub event_id : ℕ
  pub event_type : String
  pub event_prefix : String
  pub market_id : ℕ
  pub specifier : String
  pub start_time : Option ℕ

pub record SettlementRollback : Type 0 where
  pub event_id : ℕ
  pub event_type : String
  pub event_prefix : String
  pub market_id : ℕ
  pub specifier : String

-- `setting`, without the identifier and the two stamps.
pub record Setting (N : Type 0) : Type 0 where
  -- unique
  pub client_id : ℕ
  pub tax_on_stake : N
  pub tax_on_winning : N
  pub minimum_stake : N
  pub maximum_stake : N
  pub maximum_winning : N
  pub maximum_selections : ℕ
  pub mts_limit_id : ℕ
  pub currency : String
  pub url : Option String

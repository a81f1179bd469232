-- ===== src/Entity/Slip.antt =====
-- src/entity/betslip.entity.ts
use betting_service.Prelude.{ℕ, String, Option}
use betting_service.Int.{ℤ}

-- The descriptive columns.
pub record SlipInfo (N : Type 0) : Type 0 where
  pub client_id : ℕ
  pub user_id : ℕ
  pub event_id : ℕ
  pub selection_id : String
  pub event_name : String
  pub event_date : String
  pub tournament_name : String
  pub category_name : String
  pub sport_name : String
  pub sport_id : ℕ
  pub market_name : String
  pub outcome_name : String
  pub probability : N
  pub is_live : ℕ

pub record BetSlip (N : Type 0) : Type 0 where
  pub id : ℕ
  pub bet_id : ℕ
  pub match_id : ℕ
  pub event_type : String
  pub event_prefix : String
  pub producer_id : ℕ
  pub market_id : ℕ
  pub specifier : String
  pub outcome_id : String
  pub odds : N
  pub won : ℤ
  pub status : ℤ
  pub score : Option String
  pub ht_score : Option String
  pub void_factor : Option N
  pub dead_heat_factor : Option N
  pub settlement_id : Option ℕ
  pub settled_at : Option String
  pub settlement_type : Option String
  pub created : ℕ
  pub info : SlipInfo N

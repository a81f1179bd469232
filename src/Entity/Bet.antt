-- ===== src/Entity/Bet.antt =====
-- src/entity/bet.entity.ts
use betting_service.Prelude.{ℕ, String, Option, none, some, Bool, true, false, suc, zero}
use betting_service.Int.{ℤ}

-- The descriptive columns.
pub record BetInfo (N : Type 0) : Type 0 where
  pub min_stake : N
  pub bet_type : String
  pub bet_category : String
  pub bet_category_desc : String
  pub event_type : String
  pub min_odd : N
  pub tax_on_stake : N
  pub min_bonus : N
  pub max_bonus : N
  pub commission : N
  pub print_count : ℕ
  pub sports : String
  pub tournaments : String
  pub markets : String
  pub events : String
  pub is_booked : ℕ
  pub ip_address : String

pub record Bet (N : Type 0) : Type 0 where
  pub id : ℕ
  pub client_id : ℕ
  pub user_id : ℕ
  -- null, or the identifier of a bonus
  pub bonus_id : Option ℕ
  pub username : String
  pub betslip_id : String
  pub stake : N
  pub currency : String
  pub total_odd : N
  pub possible_win : N
  pub stake_after_tax : N
  pub tax_on_winning : N
  pub winning_after_tax : N
  pub total_bets : ℕ
  pub status : ℤ
  pub cash_out_amount : N
  pub cash_out_status : ℤ
  pub probability : N
  pub won : ℤ
  pub source : String
  pub settlement_type : String
  pub settled_at : Option String
  pub created : ℕ
  pub info : BetInfo N

-- `if (bet.bonus_id)`: null and 0 are false.
abbrev pub is_bonus : Option ℕ → Bool
is_bonus none = false
is_bonus (some zero) = false
is_bonus (some (suc n)) = true

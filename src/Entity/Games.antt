-- ===== src/Entity/Games.antt =====
-- src/entity/cashout.ladder.entity.ts, src/entity/casino-bet.entity.ts and
-- src/entity/virtual-bet.entity.ts
use betting_service.Prelude.{ℕ, String, Option}

pub record CashoutLadder (N : Type 0) : Type 0 where
  pub id : ℕ
  pub ladder_type : String
  pub ticket_value : N
  pub deduction_factor : N

-- `id` is a uuid: a number here.
pub record CasinoBet (N : Type 0) : Type 0 where
  pub id : ℕ
  pub client_id : ℕ
  pub user_id : ℕ
  pub bonus_id : Option ℕ
  pub username : String
  pub round_id : String
  pub game_id : String
  pub game_name : Option String
  pub game_number : Option String
  pub source : Option String
  pub cashier_transaction_id : Option String
  pub stake : N
  pub winnings : N
  pub commission : N
  pub transaction_id : String
  pub status : ℕ
  pub created_at : ℕ

-- Unique in `round_id` and `transaction_id`.
pub record VirtualBet (N : Type 0) : Type 0 where
  pub id : ℕ
  pub client_id : ℕ
  pub user_id : ℕ
  pub username : String
  pub round_id : String
  pub game_id : String
  pub stake : N
  pub winnings : N
  pub jackpot_amount : N
  pub commission : N
  pub transaction_id : String
  pub transaction_category : String
  pub game_cycle_closed : ℕ
  pub status : ℕ
  pub created_at : ℕ

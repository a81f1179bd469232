-- ===== src/Store.antt =====
-- The state that the handlers share: the rows of the database, and the calls made so far to the
-- wallet service (src/wallet/wallet.service.ts), the bonus service (src/bonus/bonus.service.ts) and
-- the message broker. A handler is an `Action`: it may throw, and keeps what it had written.
pub mod Action
pub mod Keeps
pub mod Loop
pub mod Total
use betting_service.Prelude.{ℕ, String, Bool, List, Option}
use betting_service.Int.{ℤ}
use betting_service.Floats.{Floats}
use betting_service.Entity.Bet.{Bet}
use betting_service.Entity.Slip.{BetSlip}
use betting_service.Entity.Games.{CashoutLadder, CasinoBet, VirtualBet}
use betting_service.Entity.Records.{
  Winning, Settlement, BetStatus, BetClosure, Cronjob, BetCancel, SettlementRollback, Setting,
}

-- The `subject` of a wallet transaction.
pub data Subject : Type 0 where
  sport_win sport_win_cashout : Subject
  bet_cancelled bet_rejected_mts bet_cancelled_mts_timeout : Subject
  retract_cashout rollback_winnings : Subject
  bet_deposit bonus_bet : Subject

-- The `wallet` of a transaction: 'sport' or 'sport-bonus'.
pub data Purse : Type 0 where
  sport sport_bonus : Purse

-- CreditUserRequest and DebitUserRequest, without `channel`, which is always 'Internal'. The
-- `description` is fixed words round the code of the bet slip. A column that the query does not
-- select is undefined: `none`.
pub record Payload (N : Type 0) : Type 0 where
  pub subject : Subject
  pub amount : N
  pub user_id : ℕ
  pub username : Option String
  pub client_id : ℕ
  pub source : Option String
  pub betslip_id : Option String
  pub wallet : Purse

-- SettleBetRequest of the bonus service
pub record SettleBet (N : Type 0) : Type 0 where
  pub client_id : ℕ
  pub bet_id : ℕ
  pub amount : N
  pub status : ℤ

-- UserBet of the bonus service: a bet placed on a bonus.
pub record PlaceBonus (N : Type 0) : Type 0 where
  pub client_id : ℕ
  pub user_id : ℕ
  pub bonus_id : ℕ
  pub bet_id : ℕ
  pub stake : N
  pub total_odds : N

-- A selection and a bet as the betting risk service (MTS) gets them, without the constants
-- `limit_id`, `source` and `reply_prefix`.
pub record MtsSelection (N : Type 0) : Type 0 where
  pub sport_id : ℕ
  pub producer_id : ℕ
  pub market_id : ℕ
  pub outcome_id : String
  pub specifier : String
  pub odds : N
  pub event_id : ℕ
  pub event_type : String
  pub event_prefix : String

pub record MtsBet (N : Type 0) : Type 0 where
  pub bet_id : ℕ
  pub profile_id : ℕ
  pub ip_address : String
  pub stake : N
  pub currency : String
  pub bets : List (MtsSelection N)

-- A call to a service, or a message to MTS.
pub data Event (N : Type 0) : Type 0 where
  credit : Payload N → Event N
  debit : Payload N → Event N
  settle_bonus : SettleBet N → Event N
  place_bonus : PlaceBonus N → Event N
  submit : MtsBet N → Event N
  -- whether a bonus may be used for a bet
  check_bonus : (client_id user_id : ℕ) → (stake : N) → Event N

-- What a call returns: the promise is fulfilled or rejected.
pub data Result (A : Type 0) : Type 0 where
  ok : A → Result A
  thrown : Result A

-- The reply of the bonus service to SettleBet: `success` and `data.amount`.
pub record BonusReply (N : Type 0) : Type 0 where
  pub success : Bool
  pub amount : N

-- The statements whose failure a handler catches.
pub data Statement : Type 0 where
  selects_cronjob writes_cronjob : Statement
  selects_closures deletes_closure : Statement
  selects_bet updates_bet inserts_winning : Statement
  selects_casino_bet updates_casino_bet inserts_casino_bet : Statement
  selects_virtual_bet updates_virtual_bet inserts_virtual_bet : Statement
  inserts_bet inserts_slip inserts_closure selects_slips : Statement

-- What the service does not implement. The services answer by all the calls made before; the
-- wallet answers with `data.availableBalance`, if there is one.
pub record System (N : Type 0) : Type 0 where
  pub floats : Floats N
  pub now : String
  pub time : ℕ
  pub fails : Statement → Bool
  pub on_settle : List (Event N) → SettleBet N → Result (BonusReply N)
  pub on_place : List (Event N) → PlaceBonus N → Result (Unit {0})
  pub on_submit : List (Event N) → MtsBet N → Result (Unit {0})
  pub on_credit : List (Event N) → Payload N → Result (Option N)
  pub on_debit : List (Event N) → Payload N → Result (Option N)

pub record Store (N : Type 0) : Type 0 where
  pub bets : List (Bet N)
  pub slips : List (BetSlip N)
  pub winnings : List (Winning N)
  -- the next values of AUTO_INCREMENT
  pub next_winning : ℕ
  pub next_settlement : ℕ
  pub settlements : List (Settlement N)
  pub statuses : List BetStatus
  pub closures : List BetClosure
  pub cronjobs : List Cronjob
  pub settings : List (Setting N)
  pub cancels : List BetCancel
  pub rollbacks : List SettlementRollback
  pub ladders : List (CashoutLadder N)
  pub casino_bets : List (CasinoBet N)
  pub virtual_bets : List (VirtualBet N)
  pub next_bet : ℕ
  pub next_slip : ℕ
  pub next_game_bet : ℕ
  -- the calls to services, the latest first
  pub sent : List (Event N)

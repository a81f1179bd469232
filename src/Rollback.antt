-- ===== src/Rollback.antt =====
-- Rolling a settlement back: `createSettlementRollback` and `createOutrightSettlementRollback` of
-- src/consumers/workers/settlement.rollback.service.ts.
pub mod Follows
mod Tests
pub mod Reach
use betting_service.Prelude.{
  ℕ, String, Bool, ◌&&◌, ◌||◌, ◌==◌, str_eq, if◌then◌else◌, List, [], ◌∷◌, map, Option, none, some,
}
use betting_service.Int.{◌=ℤ◌, pos, negsuc, bet_pending, bet_won, bet_lost}
use betting_service.Table.{select_where, update_where, delete_where, exists_where}
use betting_service.Entity.Bet.{Bet}
use betting_service.Entity.Slip.{BetSlip}
use betting_service.Entity.Records.{Settlement, SettlementRollback, Winning}
use betting_service.Store.{Store, System, Payload, sport, rollback_winnings}
use betting_service.Store.Action.{
  Action, return, throw, get, modify, ◌>>=◌, ◌>>◌, for_each, call_debit,
}
use betting_service.Cancel.{Market, is_in}

pub record RollbackMessage : Type 0 where
  pub event_id : ℕ
  pub event_type : String
  pub event_prefix : String
  pub markets : List Market

pub same_rollback : SettlementRollback → SettlementRollback → Bool
same_rollback x y =
    (y.event_id == x.event_id) && (y.market_id == x.market_id) && str_eq y.specifier x.specifier

-- `LIMIT 1`
pub delete_first : {A : Type 0} → (A → Bool) → List A → List A
delete_first p [] = []
delete_first p (x ∷ xs) = if p x then xs else x ∷ delete_first p xs

module _ {N : Type 0} where
  pub match_settlement : RollbackMessage → Market → Settlement N → Bool
  match_settlement msg market x =
      str_eq x.specifier market.specifier
      && (x.market_id == market.id)
      && (x.event_id == msg.event_id)

  pub outright_settlement : RollbackMessage → Market → Settlement N → Bool
  outright_settlement msg market x =
      str_eq x.event_prefix msg.event_prefix
      && str_eq x.event_type msg.event_type
      && match_settlement msg market x

  pub match_slip : RollbackMessage → Market → BetSlip N → Bool
  match_slip msg market b =
      str_eq b.specifier market.specifier
      && (b.market_id == market.id)
      && (b.match_id == msg.event_id)

  pub outright_slip : RollbackMessage → Market → BetSlip N → Bool
  outright_slip msg market b =
      str_eq b.event_prefix msg.event_prefix
      && str_eq b.event_type msg.event_type
      && match_slip msg market b

  abbrev pub reset_slip : BetSlip N → BetSlip N
  reset_slip b = record b { status = bet_pending; won = negsuc 0; settlement_id = some 0 }

  -- The numeric columns that identify rows of the table `bet` (src/entity/bet.entity.ts), by name.
  pub bet_column : String → Option (Bet N → ℕ)
  bet_column name =
      if str_eq name "id"
      then some (λ b. b.id)
      else if str_eq name "client_id"
      then some (λ b. b.client_id)
      else if str_eq name "user_id"
      then some (λ b. b.user_id)
      else none

  -- The same of the table `winning` (src/entity/winning.entity.ts).
  pub winning_column : String → Option (Winning N → ℕ)
  winning_column name =
      if str_eq name "id"
      then some (λ w. w.id)
      else if str_eq name "bet_id"
      then some (λ w. w.bet_id)
      else if str_eq name "client_id"
      then some (λ w. w.client_id)
      else if str_eq name "user_id"
      then some (λ w. w.user_id)
      else none

  abbrev pub reset_bet : Bet N → Bet N
  reset_bet b = record b { status = bet_pending; won = negsuc 0 }

  -- `UPDATE bet … WHERE bet_id IN (…) AND status IN (…)`, which names a column that the table may not
  -- have: the database refuses it then.
  pub reset_bets : List ℕ → Action N (Unit {0})
  reset_bets ids = elim (bet_column "bet_id") [
    | none ↦ throw
    | some column ↦ modify (λ s. record s {
      bets =
          update_where
            (λ b. is_in ids (column b) && ((b.status =ℤ bet_won) || (b.status =ℤ bet_lost)))
            reset_bet s.bets;
    })
  ]

  -- `DELETE FROM winning WHERE bet_id = undefined LIMIT 1`: the text holds `settledBets.id`, which is
  -- undefined, for `settledBet.id`, and the database reads the word as the name of a column.
  pub delete_winning : Bet N → Action N (Unit {0})
  delete_winning b = elim (winning_column "undefined") [
    | none ↦ throw
    | some column ↦
        modify (λ s. record s { winnings = delete_first (λ w. w.bet_id == column w) s.winnings })
  ]

  -- The query selects neither `source`, `username`, `betslip_id` nor `bonus_id`.
  abbrev pub debit_payload : Bet N → Payload N
  debit_payload b = record {
    subject = rollback_winnings;
    amount = b.winning_after_tax;
    user_id = b.user_id;
    username = none;
    client_id = b.client_id;
    source = none;
    betslip_id = none;
    wallet = sport;
  }

  pub take_back : System N → Bet N → Action N (Unit {0})
  take_back sys b = do delete_winning b; _ ← call_debit sys (debit_payload b); return tt

  -- `settlementRollbackRepository.save`: the unique index on the event, the market and the specifier
  -- may refuse the row.
  pub save_rollback : SettlementRollback → Action N (Unit {0})
  save_rollback x = do
    taken ← get (λ s. exists_where (same_rollback x) s.rollbacks)
    (if taken then throw else modify (λ s. record s { rollbacks = x ∷ s.rollbacks }))

  -- From `settlementRollbackRepository.save` on.
  pub roll_back_slips :
      System N
      → (RollbackMessage → Market → BetSlip N → Bool)
      → RollbackMessage
      → Market
      → Action N (Unit {0})
  roll_back_slips sys in_scope msg market = do
    save_rollback (record {
      event_id = msg.event_id;
      event_type = msg.event_type;
      event_prefix = msg.event_prefix;
      market_id = market.id;
      specifier = market.specifier;
    })
    slips ← get (λ s. select_where (in_scope msg market) s.slips)
    modify λ s. record s { slips = update_where (in_scope msg market) reset_slip s.slips }
    reset_bets (map (λ b. b.bet_id) slips)
    settled ← get (λ s.
        select_where (λ b. is_in (map (λ x. x.bet_id) slips) b.id && (b.status =ℤ bet_won)) s.bets)
    for_each settled (take_back sys)

  -- One turn of the loop over the markets. `slipCounts` is the array of the rows, so its `total` is
  -- undefined and the test of it never passes.
  pub roll_back_market :
      System N
      → (RollbackMessage → Market → Settlement N → Bool)
      → (RollbackMessage → Market → BetSlip N → Bool)
      → RollbackMessage
      → Market
      → Action N (Unit {0})
  roll_back_market sys settles in_scope msg market = do
    found ← get (λ s. exists_where (settles msg market) s.settlements)
    if found
        then (modify
              (λ s. record s { settlements = delete_where (settles msg market) s.settlements })
            >> roll_back_slips sys in_scope msg market)
        else return tt

  -- `counts` is never raised.
  pub create_settlement_rollback : System N → RollbackMessage → Action N ℕ
  create_settlement_rollback sys msg =
      for_each msg.markets (roll_back_market sys match_settlement match_slip msg) >> return 0

  pub create_outright_settlement_rollback : System N → RollbackMessage → Action N ℕ
  create_outright_settlement_rollback sys msg =
      for_each msg.markets (roll_back_market sys outright_settlement outright_slip msg) >> return 0

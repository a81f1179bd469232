-- ===== src/Rollback/Reach.antt =====
-- How far a rollback comes.
use betting_service.Prelude.{ℕ, ◌≡◌, refl, Bool, true, false, List, ◌∷◌, ◌==◌, ◌&&◌, str_eq}
use betting_service.Table.{update_where, delete_where, exists_where}
use betting_service.Entity.Bet.{Bet}
use betting_service.Entity.Slip.{BetSlip}
use betting_service.Entity.Records.{Settlement, SettlementRollback, Winning}
use betting_service.Store.{Store, System, Event, thrown}
use betting_service.Store.Action.{steps, throw, continue, ◌>>=◌}
use betting_service.Store.Keeps.{Keeps, Keeps-throw, Leaves, Leaves-at, keeping}
use betting_service.Store.Loop.{for_each-throws}
use betting_service.Cancel.{Market}
use betting_service.Rollback.{
  RollbackMessage, reset_slip, reset_bets, delete_winning, bet_column, winning_column,
  save_rollback, same_rollback, take_back, roll_back_slips, roll_back_market, match_settlement,
  match_slip, create_settlement_rollback, create_outright_settlement_rollback,
}

-- What a rollback would have to correct: the bets, the winnings and the wallets.
abbrev pub money : {N : Type 0} → Store N → List (Bet N) × List (Winning N) × List (Event N)
money s = (s.bets, s.winnings, s.sent)

-- The statements on `bet` and on `winning` name columns that there are not.
pub reset_bets-refused : {N : Type 0} (ids : List ℕ) → reset_bets {N = N} ids ≡ throw
unfolding reset_bets bet_column
reset_bets-refused ids = refl

pub delete_winning-refused : {N : Type 0} (b : Bet N) → delete_winning b ≡ throw
unfolding delete_winning winning_column
delete_winning-refused b = refl

module _ {N : Type 0} {P : Store N → Type 0} where
  pub reset_bets-Keeps : (ids : List ℕ) → Keeps P (reset_bets ids)
  reset_bets-Keeps ids = rw (reset_bets-refused {N = N} ids) Keeps-throw

  pub delete_winning-Keeps : (b : Bet N) → Keeps P (delete_winning b)
  delete_winning-Keeps b = rw (delete_winning-refused b) Keeps-throw

module _ {N : Type 0} (sys : System N) (msg : RollbackMessage) where
  take_back-money : (b : Bet N) → Leaves money (take_back sys b)
  unfolding take_back ◌>>=◌ throw
  take_back-money b c = record { at = λ s h. rw (delete_winning-refused b, continue) h }

  roll_back_slips-money :
      (in_scope : RollbackMessage → Market → BetSlip N → Bool) (market : Market)
      → Leaves money (roll_back_slips sys in_scope msg market)
  unfolding roll_back_slips save_rollback
  roll_back_slips-money in_scope market c =
      search (keeping, reset_bets-Keeps, take_back-money) depth 9

  roll_back_market-money :
      (settles : RollbackMessage → Market → Settlement N → Bool)
      (in_scope : RollbackMessage → Market → BetSlip N → Bool) (market : Market)
      → Leaves money (roll_back_market sys settles in_scope msg market)
  unfolding roll_back_market
  roll_back_market-money settles in_scope market c = search (keeping, roll_back_slips-money)

  match_rollback-money : Leaves money (create_settlement_rollback sys msg)
  unfolding create_settlement_rollback
  match_rollback-money c = search (keeping, roll_back_market-money)

  outright_rollback-money : Leaves money (create_outright_settlement_rollback sys msg)
  unfolding create_outright_settlement_rollback
  outright_rollback-money c = search (keeping, roll_back_market-money)

  -- No rollback, of a match or of an outright, changes a bet or a winning or calls a service, whatever
  -- the message says.
  pub rollback_takes_nothing :
      (s : Store N)
      → (money (create_settlement_rollback sys msg s).1 ≡ money s)
        × (money (create_outright_settlement_rollback sys msg s).1 ≡ money s)
  rollback_takes_nothing s = (
    Leaves-at money (create_settlement_rollback sys msg) match_rollback-money s,
    Leaves-at money (create_outright_settlement_rollback sys msg) outright_rollback-money s,
  )

  -- A rollback of the event, the market and the specifier is stored.
  abbrev pub is_rolled_back : Market → SettlementRollback → Bool
  is_rolled_back market y =
      (y.event_id == msg.event_id)
      && (y.market_id == market.id)
      && str_eq y.specifier market.specifier

  market_throws :
      (s : Store N) (market : Market)
      → exists_where (match_settlement msg market) s.settlements ≡ true
      → exists_where (is_rolled_back market) s.rollbacks ≡ false
      → let (r, t) = roll_back_market sys match_settlement match_slip msg market s in
        (r ≡ thrown)
        × (t.settlements ≡ delete_where (match_settlement msg market) s.settlements)
        × (t.slips ≡ update_where (match_slip msg market) reset_slip s.slips)
  unfolding roll_back_market roll_back_slips save_rollback same_rollback steps
  market_throws s market found fresh =
      rw (found, fresh, continue, reset_bets-refused {N = N}) (refl, refl, refl)

  -- If the first market of a message has settlements and no stored rollback, the handler throws: those
  -- settlements are deleted and the slips of that market are pending again, no later market is looked at,
  -- no bet or winning is changed and no service is called.
  pub rollback_throws :
      (s : Store N) (market : Market) (later : List Market)
      → msg.markets ≡ market ∷ later
      → exists_where (match_settlement msg market) s.settlements ≡ true
      → exists_where (is_rolled_back market) s.rollbacks ≡ false
      → let (r, t) = create_settlement_rollback sys msg s in
        (r ≡ thrown)
        × (t.settlements ≡ delete_where (match_settlement msg market) s.settlements)
        × (t.slips ≡ update_where (match_slip msg market) reset_slip s.slips)
        × (money t ≡ money s)
  unfolding create_settlement_rollback
  rollback_throws s market later e found fresh =
      let (threw, deleted, reset) = market_throws s market found fresh in
      let untouched =
        Leaves-at money (roll_back_market sys match_settlement match_slip msg market)
          (roll_back_market-money match_settlement match_slip market) s in
      rw
        (for_each-throws (roll_back_market sys match_settlement match_slip msg) {B = ℕ} 0
          msg.markets market later s e threw)
        (refl, deleted, reset, untouched)

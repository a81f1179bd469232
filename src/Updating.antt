-- ===== src/Updating.antt =====
-- The manual update of a bet or of one of its selections: `updateBet` of src/bets/bets.service.ts and
-- `recalculateVoid` of src/commons/helper.ts.
pub mod Follows
mod Tests
pub mod Results
pub mod Again
pub mod Selection
use Prim.Native.String.{◌++◌ as str_append}
use betting_service.Prelude.{
  ℕ, String, Bool, true, false, ◌==◌, str_eq, if◌then◌else◌, Option, none, some,
}
use betting_service.Int.{
  ℤ, pos, bet_pending, bet_lost, bet_won, bet_voided, bet_cancelled, status_won, status_lost,
  status_not_lost_or_won, betslip_processing_pending, betslip_processing_completed,
  betslip_processing_voided, betslip_processing_cancelled,
}
use betting_service.Floats.{Floats}
use betting_service.Table.{update_where, find_where}
use betting_service.Entity.Bet.{Bet, is_bonus}
use betting_service.Entity.Slip.{BetSlip}
use betting_service.Store.{Store, System, Purse, sport, sport_bonus, SettleBet, updates_bet}
use betting_service.Store.{bet_cancelled as cancelled_subject}
use betting_service.Store.Action.{
  Action, return, throw, get, modify, ◌>>=◌, ◌>>◌, when, try_catch, call_settle, call_credit,
  statement,
}
use betting_service.Closing.{save_winning, winning_of, win_payload}
use betting_service.Mts.{stake_payload}

pub record UpdateBetRequest : Type 0 where
  pub bet_id : ℕ
  pub status : String
  pub entity_type : String
  pub selection_id : ℕ

pub record UpdateBetResponse : Type 0 where
  pub status : ℕ
  pub success : Bool
  pub message : String

-- The cases of `switch (status)`; `other` is `default`.
pub data Decision : Type 0 where
  won lost void cancel other : Decision

pub decision_of : String → Decision
decision_of status =
    if str_eq status "won"
    then won
    else (if str_eq status "lost"
        then lost
        else (if str_eq status "void"
            then void
            else (if str_eq status "cancel" then cancel else other)))

-- `wonStatus` and `betStatus` of a bet.
abbrev pub won_status : Decision → ℤ
won_status won = status_won
won_status lost = status_lost
won_status d = status_not_lost_or_won

abbrev pub bet_status : Decision → ℤ
bet_status won = bet_won
bet_status lost = bet_lost
bet_status void = bet_voided
bet_status cancel = bet_cancelled
bet_status other = bet_pending

-- `wonStatus` and `betStatus` of a selection that is not void.
abbrev pub selection_status : Decision → ℤ
selection_status won = betslip_processing_completed
selection_status lost = betslip_processing_completed
selection_status d = betslip_processing_pending

abbrev pub updated : String → UpdateBetResponse
updated entity_type = record {
  status = 200;
  success = true;
  message = str_append entity_type " updated successfully";
}

abbrev pub not_updated : UpdateBetResponse
not_updated = record { status = 500; success = false; message = "Unable to carry out operations" }

-- The purse that the wallet is told: that of the bonus, for a bonus bet.
abbrev pub purse_of : Option ℕ → Purse
purse_of bonus_id = if is_bonus bonus_id then sport_bonus else sport

module _ {N : Type 0} where
  -- The call to the bonus service, for a bonus bet.
  pub settle_bonus_bet : System N → Bet N → (amount : N) → (status : ℤ) → Action N (Unit {0})
  settle_bonus_bet sys bet amount status = when (is_bonus bet.bonus_id) (do
    _ ←
        call_settle sys
          (record { client_id = bet.client_id; bet_id = bet.id; amount = amount; status = status })
    return tt)

  -- The slips of a voided or cancelled bet.
  abbrev pub mark_slip : ℤ → BetSlip N → BetSlip N
  mark_slip status b = record b { won = status_not_lost_or_won; status = status }

  -- The stake goes back, and the slips are marked.
  pub return_stake : System N → Bet N → (bet_id : ℕ) → (slip_status : ℤ) → Action N (Unit {0})
  return_stake sys bet bet_id slip_status = do
    settle_bonus_bet sys bet sys.floats.zero_num bet_voided
    _ ← call_credit sys (stake_payload cancelled_subject bet (purse_of bet.bonus_id))
    modify λ s. record s {
      slips = update_where (λ b. b.bet_id == bet_id) (mark_slip slip_status) s.slips;
    }

  pub pay_manually : System N → Bet N → Action N (Unit {0})
  pay_manually sys bet = do
    settle_bonus_bet sys bet bet.winning_after_tax bet_won
    _ ← save_winning (winning_of bet.id bet)
    _ ← call_credit sys (win_payload bet (purse_of bet.bonus_id) bet.winning_after_tax)
    return tt

  -- The case of a decision; a property of no bet is read with a throw.
  pub decide : System N → ℕ → Decision → Option (Bet N) → Action N (Unit {0})
  decide sys bet_id other bet = return tt
  decide sys bet_id d none = throw
  decide sys bet_id won (some bet) = pay_manually sys bet
  decide sys bet_id lost (some bet) = settle_bonus_bet sys bet sys.floats.zero_num bet_lost
  decide sys bet_id void (some bet) = return_stake sys bet bet_id betslip_processing_voided
  decide sys bet_id cancel (some bet) = return_stake sys bet bet_id betslip_processing_cancelled

  abbrev pub mark_manually : System N → Decision → Bet N → Bet N
  mark_manually sys d b = record b {
    won = won_status d;
    status = bet_status d;
    settled_at = some sys.now;
    settlement_type = "manual";
  }

  pub update_whole_bet : System N → ℕ → Decision → Option (Bet N) → Action N (Unit {0})
  update_whole_bet sys bet_id d bet =
      decide sys bet_id d bet
      >> statement sys updates_bet (
          modify λ s. record s {
            bets = update_where (λ b. b.id == bet_id) (mark_manually sys d) s.bets;
          })

  -- What `recalculateVoid` makes of the bet: `possibleWin` and `newOdds`.
  pub recalculate_void : Floats N → Bet N → (odd : N) → N × N
  recalculate_void floats bet odd =
      let new_odds = floats.div bet.total_odd odd in
      (floats.sub (floats.mul new_odds bet.stake_after_tax) bet.stake_after_tax, new_odds)

  abbrev pub write_void : Floats N → N × N → Bet N → Bet N
  write_void floats r b = record b {
    possible_win = r.0;
    winning_after_tax = r.0;
    tax_on_winning = floats.zero_num;
    total_odd = r.1;
  }

  -- A void selection: `won` is given `betStatus`, and `status` is given `wonStatus`.
  abbrev pub void_selection : System N → BetSlip N → BetSlip N
  void_selection sys b = record b {
    odds = sys.floats.one_num;
    won = betslip_processing_completed;
    status = status_not_lost_or_won;
    settled_at = some sys.now;
    settlement_type = some "manual";
  }

  pub void_with : System N → ℕ → Option (Bet N) → Option (BetSlip N) → Action N (Unit {0})
  void_with sys selection_id bet none = throw
  void_with sys selection_id none (some slip) = throw
  void_with sys selection_id (some bet) (some slip) = do
    modify λ s. record s {
      bets =
          update_where (λ b. b.id == bet.id)
            (write_void sys.floats (recalculate_void sys.floats bet slip.odds)) s.bets;
    }
    modify λ s. record s {
      slips = update_where (λ b. b.id == selection_id) (void_selection sys) s.slips;
    }

  abbrev pub mark_selection : System N → Decision → BetSlip N → BetSlip N
  mark_selection sys d b = record b {
    won = won_status d;
    status = selection_status d;
    settled_at = some sys.now;
    settlement_type = some "manual";
  }

  pub update_selection :
      System N → ℕ → Decision → Option (Bet N) → Option (BetSlip N) → Action N (Unit {0})
  update_selection sys selection_id void bet slip = void_with sys selection_id bet slip
  update_selection sys selection_id d bet slip = modify (λ s. record s {
    slips = update_where (λ b. b.id == selection_id) (mark_selection sys d) s.slips;
  })

  -- The body of the `try`.
  pub update_entity : System N → UpdateBetRequest → Action N UpdateBetResponse
  update_entity sys req = do
    bet ← get (λ s. find_where (λ b. b.id == req.bet_id) s.bets)
    if str_eq req.entity_type "bet"
        then update_whole_bet sys req.bet_id (decision_of req.status) bet
        else (do
          slip ← get (λ s. find_where (λ b. b.id == req.selection_id) s.slips)
          update_selection sys req.selection_id (decision_of req.status) bet slip)
    return (updated req.entity_type)

  pub update_bet : System N → UpdateBetRequest → Action N UpdateBetResponse
  update_bet sys req = try_catch (update_entity sys req) (return not_updated)

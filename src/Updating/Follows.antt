-- ===== src/Updating/Follows.antt =====
-- A manual update follows the ledger (src/bets/bets.service.ts).
use betting_service.Prelude.{ℕ, Option, none, some}
use betting_service.Entity.Bet.{Bet}
use betting_service.Entity.Slip.{BetSlip}
use betting_service.Int.{ℤ}
use betting_service.Store.{System}
use betting_service.Ledger.{Ledger}
use betting_service.Ledger.Rules.{Follows, following, paying}
use betting_service.Closing.Follows.{Follows-save}
use betting_service.Updating.{
  Decision, won, lost, void, cancel, other, UpdateBetRequest, settle_bonus_bet, return_stake,
  pay_manually, decide, update_whole_bet, void_with, update_selection, update_entity, update_bet,
}

module _ {N : Type 0} (l : Ledger N) (sys : System N) where
  settle_bonus_bet-Follows :
      (bet : Bet N) (amount : N) (status : ℤ) → Follows l (settle_bonus_bet sys bet amount status)
  unfolding settle_bonus_bet
  settle_bonus_bet-Follows bet amount status = search following

  return_stake-Follows :
      (bet : Bet N) (id : ℕ) (status : ℤ) → Follows l (return_stake sys bet id status)
  unfolding return_stake
  return_stake-Follows bet id status = search (following, settle_bonus_bet-Follows)

  pay_manually-Follows : (bet : Bet N) → Follows l (pay_manually sys bet)
  unfolding pay_manually
  pay_manually-Follows bet =
      search (following, paying, settle_bonus_bet-Follows, Follows-save) depth 8

  decide-Follows : (id : ℕ) (d : Decision) (bet : Option (Bet N)) → Follows l (decide sys id d bet)
  unfolding decide
  decide-Follows id other bet = search following
  decide-Follows id won none = search following
  decide-Follows id lost none = search following
  decide-Follows id void none = search following
  decide-Follows id cancel none = search following
  decide-Follows id won (some bet) = pay_manually-Follows bet
  decide-Follows id lost (some bet) = settle_bonus_bet-Follows bet _ _
  decide-Follows id void (some bet) = return_stake-Follows bet id _
  decide-Follows id cancel (some bet) = return_stake-Follows bet id _

  update_whole_bet-Follows :
      (id : ℕ) (d : Decision) (bet : Option (Bet N)) → Follows l (update_whole_bet sys id d bet)
  unfolding update_whole_bet
  update_whole_bet-Follows id d bet = search (following, decide-Follows)

  void_with-Follows :
      (id : ℕ) (bet : Option (Bet N)) (slip : Option (BetSlip N))
      → Follows l (void_with sys id bet slip)
  unfolding void_with
  void_with-Follows id bet none = search following
  void_with-Follows id none (some slip) = search following
  void_with-Follows id (some bet) (some slip) = search following

  update_selection-Follows :
      (id : ℕ) (d : Decision) (bet : Option (Bet N)) (slip : Option (BetSlip N))
      → Follows l (update_selection sys id d bet slip)
  unfolding update_selection
  update_selection-Follows id void bet slip = void_with-Follows id bet slip
  update_selection-Follows id won bet slip = search following
  update_selection-Follows id lost bet slip = search following
  update_selection-Follows id cancel bet slip = search following
  update_selection-Follows id other bet slip = search following

  pub update_bet-Follows : (req : UpdateBetRequest) → Follows l (update_bet sys req)
  unfolding update_bet update_entity
  update_bet-Follows req =
      search (following, update_whole_bet-Follows, update_selection-Follows) depth 8

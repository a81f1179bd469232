-- ===== src/Mts/Refund.antt =====
-- What a rejection and a timeout write and whom they credit.
use betting_service.Prelude.{
  ℕ, ◌≡◌, true, false, List, ◌∷◌, some, arith, ◌==◌, ◌&&◌, if◌then◌else◌, Bool-cases, inl, inr,
}
use betting_service.Int.{◌=ℤ◌, bet_pending, bet_cancelled, bet_won}
use betting_service.Entity.Bet.{Bet, is_bonus}
use betting_service.Table.Rows.{find-update, update_where-none}
use betting_service.Table.{update_where, exists_where, find_where}
use betting_service.Store.{
  Store, Result, System, Subject, Event, credit, settle_bonus, BonusReply, ok, sport, sport_bonus,
  bet_rejected_mts, bet_cancelled_mts_timeout,
}
use betting_service.Store.Action.{steps, continue, return}
use betting_service.Store.Keeps.{continue-return}
use betting_service.Mts.{
  has_status, save_status, refund, revert, reject, retract, debit_paid, cancel_unanswered, time_out,
  stake_payload, cancel_slip, reject_bet, cancel_bet, process_bet_rejected,
}

module _ {N : Type 0} where
  -- The calls of a refund, before those made earlier: the stake is credited, for a bonus bet to the
  -- bonus wallet and after telling the bonus service.
  abbrev pub refunded : System N → Subject → Bet N → List (Event N) → List (Event N)
  refunded sys subject bet sent =
      if is_bonus bet.bonus_id
      then credit (stake_payload subject bet sport_bonus)
        ∷ settle_bonus (record {
          client_id = bet.client_id;
          bet_id = bet.id;
          amount = sys.floats.zero_num;
          status = bet_cancelled;
        })
        ∷ sent
      else credit (stake_payload subject bet sport) ∷ sent

  -- If the bet is a bonus bet, the bonus service answers its refund, made after these calls.
  abbrev pub BonusAnswers : System N → Bet N → List (Event N) → Type 0
  BonusAnswers sys bet sent =
      is_bonus bet.bonus_id ≡ true
      → (reply : BonusReply N) × (sys.on_settle sent (record {
        client_id = bet.client_id;
        bet_id = bet.id;
        amount = sys.floats.zero_num;
        status = bet_cancelled;
      })
          ≡ ok reply)

  refund-sent :
      (sys : System N) (subject : Subject) (bet : Bet N) (s : Store N)
      → BonusAnswers sys bet s.sent
      → ((refund sys subject (some bet) s).1.sent ≡ refunded sys subject bet s.sent)
        × ((refund sys subject (some bet) s).1.bets ≡ s.bets)
        × ((refund sys subject (some bet) s).1.slips ≡ s.slips)
  unfolding refund steps
  refund-sent sys subject bet s e = elim (Bool-cases (is_bonus bet.bonus_id)) [
    | inl bonus ↦ ground (arith, e bonus)
    | inr plain ↦ ground arith
  ]

  then_one : (r : Result (Unit {0})) (t : Store N) → (continue {B = ℕ} r (λ _. return 1) t).1 ≡ t
  then_one r t = continue-return r 1 t

  -- The first rejection of a known bet marks it and all its slips as cancelled, with no result, and
  -- returns the stake once, to the purse that it was taken from.
  pub rejected-refunds :
      (sys : System N) (bet_id : ℕ) (reason : List ℕ) (s : Store N) (bet : Bet N)
      → has_status bet_id s ≡ false
      → find_where (λ b. b.id == bet_id) s.bets ≡ some bet
      → BonusAnswers sys bet s.sent
      → let t = (process_bet_rejected sys bet_id reason s).1 in
        (t.sent ≡ refunded sys bet_rejected_mts bet s.sent)
        × (t.bets ≡ update_where (λ b. b.id == bet_id) reject_bet s.bets)
        × (t.slips ≡ update_where (λ b. b.bet_id == bet_id) cancel_slip s.slips)
  unfolding process_bet_rejected reject revert save_status steps
  rejected-refunds sys bet_id reason s bet fresh found answers =
      rw
        (
          fresh,
          fresh,
          find-update (λ b. b.id == bet_id) reject_bet (λ x h. h) s.bets bet found,
          then_one,
        )
        (
          (refund-sent sys _ (reject_bet bet) _ answers).0,
          (refund-sent sys _ (reject_bet bet) _ answers).1,
          (refund-sent sys _ (reject_bet bet) _ answers).2,
        )

  -- A timeout refunds whatever the state of the bet is: of a bet that is no longer pending, such as
  -- one that has been paid out or cashed out, it leaves every row of the bets as it was, and credits
  -- the stake.
  pub time_out-refunds_settled :
      (sys : System N) (row bet : Bet N) (s : Store N)
      → has_status row.id s ≡ false
      → (row.won =ℤ bet_won) ≡ false
      → exists_where (λ b. (b.id == row.id) && (b.status =ℤ bet_pending)) s.bets ≡ false
      → find_where (λ b. b.id == row.id) s.bets ≡ some bet
      → BonusAnswers sys bet s.sent
      → let t = (time_out sys row s).1 in
        (t.sent ≡ refunded sys bet_cancelled_mts_timeout bet s.sent) × (t.bets ≡ s.bets)
  unfolding time_out retract debit_paid cancel_unanswered save_status steps
  time_out-refunds_settled sys row bet s fresh not_won none_pending found answers =
      rw
        (
          fresh,
          not_won,
          update_where-none (λ b. (b.id == row.id) && (b.status =ℤ bet_pending)) (cancel_bet sys)
              s.bets none_pending,
          found,
        )
        ((refund-sent sys _ bet _ answers).0, (refund-sent sys _ bet _ answers).1)

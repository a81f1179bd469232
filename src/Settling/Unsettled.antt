-- ===== src/Settling/Unsettled.antt =====
-- The task that settles bets by their slips: `taskProcessUnSettledBet` of
-- src/cronjobs/workers/bet.settlement.service.ts.
use betting_service.Prelude.{
  ℕ, ◌+◌, ◌==◌, ltb, Bool, true, false, not, ◌&&◌, List, [], ◌∷◌, if◌then◌else◌, some,
}
use betting_service.Int.{
  pos, ◌=ℤ◌, bet_pending, bet_lost, status_not_lost_or_won, status_won, status_lost,
  betslip_processing_voided,
}
use betting_service.Table.{select_where, update_where, exists_where, count_where}
use betting_service.Entity.Bet.{Bet, is_bonus}
use betting_service.Entity.Slip.{BetSlip}
use betting_service.Store.{Store, System}
use betting_service.Store.Action.{Action, return, get, modify, ◌>>=◌, ◌>>◌, when, call_settle}
use betting_service.Cron.{is_running, write_cronjob}

module _ {N : Type 0} where
  -- `INNER JOIN bet_slip … WHERE bs.status NOT IN (0) AND b.status = 0 AND b.won = -1`, and `DISTINCT`
  unfoldable pub is_unsettled : Store N → Bet N → Bool
  is_unsettled s b =
      (b.status =ℤ bet_pending)
      && (b.won =ℤ status_not_lost_or_won)
      && exists_where (λ x. (x.bet_id == b.id) && not (x.status =ℤ pos 0)) s.slips

  unfoldable pub count_slips : ℕ → (BetSlip N → Bool) → Store N → ℕ
  count_slips id p s = count_where (λ x. (x.bet_id == id) && p x) s.slips

  abbrev pub mark_lost : System N → Bet N → Bet N
  mark_lost sys b = record b { won = status_lost; status = bet_lost; settled_at = some sys.now }

  unfoldable pub lose_bet : System N → Bet N → Action N (Unit {0})
  lose_bet sys row =
      modify (λ s. record s { bets = update_where (λ b. b.id == row.id) (mark_lost sys) s.bets })
      >> when (is_bonus row.bonus_id) (do
        _ ← call_settle sys (record {
          client_id = row.client_id;
          bet_id = row.id;
          amount = sys.floats.zero_num;
          status = bet_lost;
        })
        return tt)

  -- One turn of the loop. It says whether `closeBet` is started, which is not waited for.
  unfoldable pub process_unsettled : System N → Bet N → Action N Bool
  process_unsettled sys row = do
    total ← get (count_slips row.id (λ x. true))
    won ← get (count_slips row.id (λ x. x.won =ℤ status_won))
    lost ← get (count_slips row.id (λ x. x.won =ℤ status_lost))
    void_games ← get (count_slips row.id (λ x. x.status =ℤ betslip_processing_voided))
    when (ltb 0 lost) (lose_bet sys row)
    return (won + void_games == total)

  unfoldable pub process_all_unsettled : System N → List (Bet N) → Action N (List ℕ)
  process_all_unsettled sys [] = return []
  process_all_unsettled sys (row ∷ rows) = do
    starts ← process_unsettled sys row
    started ← process_all_unsettled sys rows
    return (if starts then row.id ∷ started else started)

  unfoldable pub settle_unsettled : System N → Bool → Action N (List ℕ)
  settle_unsettled sys true = return []
  settle_unsettled sys false = do
    modify (write_cronjob "unsettled.bet" (pos 1))
    rows ← get (λ s. select_where (is_unsettled s) s.bets)
    started ← process_all_unsettled sys rows
    modify (write_cronjob "unsettled.bet" (pos 0))
    return started

  -- The bets whose `closeBet` it starts, each of which runs by itself.
  unfoldable pub task_process_unsettled_bet : System N → Action N (List ℕ)
  task_process_unsettled_bet sys = do
    running ← get (is_running "unsettled.bet")
    settle_unsettled sys running

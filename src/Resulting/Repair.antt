-- ===== src/Resulting/Repair.antt =====
-- The two repairs of src/cronjobs/workers/bet.resulting.service.ts: `taskFixInvalidBetStatus` and
-- `taskRequestSettlement`.
use betting_service.Prelude.{ℕ, ◌==◌, String, Bool, not, ◌&&◌, List, [], ◌∷◌, if◌then◌else◌}
use betting_service.Int.{pos, ◌=ℤ◌, status_not_lost_or_won, betslip_processing_pending}
use betting_service.Table.{select_where, update_where, exists_where}
use betting_service.Entity.Bet.{Bet}
use betting_service.Entity.Slip.{BetSlip}
use betting_service.Entity.Records.{BetClosure}
use betting_service.Store.{Store, System, inserts_closure}
use betting_service.Store.Action.{
  Action, return, get, modify, ◌>>=◌, try_catch, statement, for_each, when,
}

module _ {N : Type 0} where
  -- `won = 1 and status = 0 and id not in (select bet_id from winning)`
  unfoldable pub is_unpaid : Store N → Bet N → Bool
  is_unpaid s b =
      (b.won =ℤ pos 1)
      && (b.status =ℤ pos 0)
      && not (exists_where (λ w. w.bet_id == b.id) s.winnings)

  -- `insert ignore`: a row with the bet of another is not inserted.
  unfoldable pub insert_ignore : List (Bet N) → List BetClosure → List BetClosure
  insert_ignore [] rows = rows
  insert_ignore (b ∷ bs) rows =
      insert_ignore bs (
        if exists_where (λ c. c.bet_id == b.id) rows then rows else record { bet_id = b.id } ∷ rows)

  unfoldable pub task_fix_invalid_bet_status : System N → Action N (Unit {0})
  task_fix_invalid_bet_status sys =
      try_catch
        (statement sys inserts_closure (
          modify λ s. record s {
            closures = insert_ignore (select_where (is_unpaid s) s.bets) s.closures;
          }))
        (return tt)

  -- `GROUP BY match_id`
  unfoldable pub matches_of : List (BetSlip N) → List ℕ
  matches_of [] = []
  matches_of (b ∷ bs) =
      let rest = matches_of bs in
      if exists_where (λ id. id == b.match_id) rest then rest else b.match_id ∷ rest

  -- One match: the feed is asked for its settlements, and what it answers is not read, or those
  -- that there are will be processed again.
  unfoldable pub request_match : ℕ → Action N (Unit {0})
  request_match match_id = do
    known ← get (λ s. exists_where (λ x. x.event_id == match_id) s.settlements)
    when known (
        modify λ s. record s {
          settlements =
              update_where (λ x. x.event_id == match_id) (λ x. record x { processed = 0 })
                s.settlements;
        })

  -- `is_due` is the comparison of the date of an event with the time two hours ago.
  unfoldable pub task_request_settlement : (is_due : String → Bool) → Action N (Unit {0})
  task_request_settlement is_due = do
    slips ← get (λ s.
        select_where
          (λ b.
            (b.won =ℤ status_not_lost_or_won)
            && (b.status =ℤ betslip_processing_pending)
            && is_due b.info.event_date)
          s.slips)
    for_each (matches_of slips) request_match

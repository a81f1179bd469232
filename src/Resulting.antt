-- ===== src/Resulting.antt =====
-- The task that pays out the bets in `bet_closure`: `taskProcessBetResulting` of
-- src/cronjobs/workers/bet.resulting.service.ts.
pub mod Follows
pub mod Repair
mod Tests
pub mod Closures
pub mod Emptied
use betting_service.Prelude.{◌==◌, Bool, true, false, List, [], ◌∷◌, Option, none, some}
use betting_service.Int.{pos}
use betting_service.Table.{delete_where}
use betting_service.Entity.Records.{BetClosure}
use betting_service.Store.{
  Store, System, selects_cronjob, writes_cronjob, selects_closures, deletes_closure,
}
use betting_service.Store.Action.{
  Action, return, get, modify, attempt, statement, for_each, ◌>>=◌, ◌>>◌,
}
use betting_service.Cron.{is_running, write_cronjob}
use betting_service.Closing.{close_won_bet}

module _ {N : Type 0} where
  -- One turn of the loop: the row is deleted whatever `closeBet` did.
  pub close_closure : System N → BetClosure → Action N (Unit {0})
  close_closure sys row = do
    _ ← close_won_bet sys row.bet_id
    _ ← attempt (
        statement sys deletes_closure (
          modify
            λ s. record s { closures = delete_where (λ c. c.bet_id == row.bet_id) s.closures }))
    return tt

  pub release : System N → Action N (Unit {0})
  release sys = do
    _ ← attempt (statement sys writes_cronjob (modify (write_cronjob "bet.resulting" (pos 0))))
    return tt

  pub close_closures : System N → Option (List BetClosure) → Action N (Unit {0})
  close_closures sys none = return tt
  close_closures sys (some rows) = for_each rows (close_closure sys) >> release sys

  pub locked : System N → Option (Unit {0}) → Action N (Unit {0})
  locked sys none = return tt
  locked sys (some _) = do
    rows ← attempt (statement sys selects_closures (get (λ s. s.closures)))
    close_closures sys rows

  pub start : System N → Option Bool → Action N (Unit {0})
  start sys none = return tt
  start sys (some true) = return tt
  start sys (some false) = do
    taken ← attempt (statement sys writes_cronjob (modify (write_cronjob "bet.resulting" (pos 1))))
    locked sys taken

  pub task_process_bet_resulting : System N → Action N (Unit {0})
  task_process_bet_resulting sys = do
    running ← attempt (statement sys selects_cronjob (get (is_running "bet.resulting")))
    start sys running

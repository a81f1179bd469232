-- ===== src/Settling/Tasks.antt =====
-- The task that settles the bets on new settlements: `taskProcessBetSettlement` of
-- src/cronjobs/workers/bet.settlement.service.ts.
use betting_service.Prelude.{◌==◌}
use betting_service.Table.{select_where, update_where}
use betting_service.Entity.Records.{Settlement}
use betting_service.Store.{System}
use betting_service.Store.Action.{Action, get, modify, ◌>>=◌, for_each}
use betting_service.Cron.{exclusively}
use betting_service.Settling.{create_bet_settlement}

module _ {N : Type 0} where
  -- One turn of the loop: the bets on the settlement, then its row.
  unfoldable pub process_settlement : System N → Settlement N → Action N (Unit {0})
  process_settlement sys row = do
    _ ← create_bet_settlement sys row
    modify λ s. record s {
      settlements =
          update_where (λ x. x.id == row.id) (λ x. record x { processed = 1 }) s.settlements;
    }

  unfoldable pub process_settlements : System N → Action N (Unit {0})
  process_settlements sys = do
    rows ← get (λ s. select_where (λ x. x.processed == 0) s.settlements)
    for_each rows (process_settlement sys)

  unfoldable pub task_process_bet_settlement : System N → Action N (Unit {0})
  task_process_bet_settlement sys = exclusively "bet.settlement" (process_settlements sys)

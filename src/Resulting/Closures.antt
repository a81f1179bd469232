-- ===== src/Resulting/Closures.antt =====
-- A run of the resulting task returns (src/cronjobs/workers/bet.resulting.service.ts).
use betting_service.Prelude.{◌≡◌, Bool, true, false, List, Option, none, some}
use betting_service.Entity.Records.{BetClosure}
use betting_service.Store.{Store, System, ok}
use betting_service.Resulting.{
  close_closure, release, close_closures, locked, start, task_process_bet_resulting,
}
use betting_service.Store.Total.{Total, Total-return, Total-attempt, Total-bind, for_each-Total}
use betting_service.Closing.Returns.{close_won_bet-Total}

module _ {N : Type 0} where
  module _ (sys : System N) where
    pub close_closure-Total : (row : BetClosure) → Total (close_closure sys row)
    unfolding close_closure
    close_closure-Total row =
        Total-bind _ _ (close_won_bet-Total sys row.bet_id)
          (λ _. Total-bind _ _ (Total-attempt _) (λ _. Total-return tt))

    close_closures-Total : (o : Option (List BetClosure)) → Total (close_closures sys o)
    unfolding close_closures release
    close_closures-Total none = Total-return tt
    close_closures-Total (some rows) =
        Total-bind _ _ (for_each-Total rows (close_closure sys) close_closure-Total)
          (λ _. Total-bind _ _ (Total-attempt _) (λ _. Total-return tt))

    locked-Total : (o : Option (Unit {0})) → Total (locked sys o)
    unfolding locked
    locked-Total none = Total-return tt
    locked-Total (some u) = Total-bind _ _ (Total-attempt _) close_closures-Total

    start-Total : (o : Option Bool) → Total (start sys o)
    unfolding start
    start-Total none = Total-return tt
    start-Total (some true) = Total-return tt
    start-Total (some false) = Total-bind _ _ (Total-attempt _) locked-Total

    task-Total : Total (task_process_bet_resulting sys)
    unfolding task_process_bet_resulting
    task-Total = Total-bind _ _ (Total-attempt _) start-Total

  -- The resulting task never throws: whatever statement or service fails, it returns, after paying out
  -- some of the bets or none.
  pub task_process_bet_resulting_returns :
      (sys : System N) (s : Store N) → (task_process_bet_resulting sys s).0 ≡ ok tt
  task_process_bet_resulting_returns sys s = let (u, e) = (task-Total sys).at s in e

-- ===== src/Resulting/Follows.antt =====
-- The resulting task follows the ledger (src/cronjobs/workers/bet.resulting.service.ts).
use betting_service.Prelude.{ℕ, String, Bool, true, false, List, Option, none, some}
use betting_service.Entity.Records.{BetClosure}
use betting_service.Store.{System}
use betting_service.Ledger.{Ledger}
use betting_service.Ledger.Rules.{Follows, following}
use betting_service.Cron.Follows.{write_cronjob-Follows}
use betting_service.Closing.Follows.{close_won_bet-Follows}
use betting_service.Resulting.Repair.{
  task_fix_invalid_bet_status, request_match, task_request_settlement,
}
use betting_service.Resulting.{
  close_closure, release, close_closures, locked, start, task_process_bet_resulting,
}

module _ {N : Type 0} (l : Ledger N) (sys : System N) where
  close_closure-Follows : (row : BetClosure) → Follows l (close_closure sys row)
  unfolding close_closure
  close_closure-Follows row = search (following, close_won_bet-Follows)

  release-Follows : Follows l (release sys)
  unfolding release
  release-Follows = search (following, write_cronjob-Follows)

  close_closures-Follows : (rows : Option (List BetClosure)) → Follows l (close_closures sys rows)
  unfolding close_closures
  close_closures-Follows none = search following
  close_closures-Follows (some rows) = search (following, close_closure-Follows, release-Follows)

  locked-Follows : (taken : Option (Unit {0})) → Follows l (locked sys taken)
  unfolding locked
  locked-Follows none = search following
  locked-Follows (some u) = search (following, close_closures-Follows)

  start-Follows : (running : Option Bool) → Follows l (start sys running)
  unfolding start
  start-Follows none = search following
  start-Follows (some true) = search following
  start-Follows (some false) = search (following, write_cronjob-Follows, locked-Follows)

  pub task_process_bet_resulting-Follows : Follows l (task_process_bet_resulting sys)
  unfolding task_process_bet_resulting
  task_process_bet_resulting-Follows = search (following, start-Follows)

  pub task_fix_invalid_bet_status-Follows : Follows l (task_fix_invalid_bet_status sys)
  unfolding task_fix_invalid_bet_status
  task_fix_invalid_bet_status-Follows = search following

  request_match-Follows : (match_id : ℕ) → Follows l (request_match match_id)
  unfolding request_match
  request_match-Follows match_id = search following

  pub task_request_settlement-Follows :
      (is_due : String → Bool) → Follows l (task_request_settlement is_due)
  unfolding task_request_settlement
  task_request_settlement-Follows is_due = search (following, request_match-Follows)

-- ===== src/Mts/Follows.antt =====
-- The replies of the MTS and its silence follow the ledger (src/consumers/workers, src/cronjobs/workers/mts.timeout.service.ts).
use betting_service.Prelude.{ℕ, ◌≡◌, false, List, Option, none, some, arith}
use betting_service.Entity.Bet.{Bet}
use betting_service.Entity.Records.{BetStatus}
use betting_service.Store.{Store, System, Subject}
use betting_service.Ledger.{Ledger, view, is_win}
use betting_service.Ledger.Rules.{Follows, following, Steps-same}
use betting_service.Cron.Follows.{exclusively-Follows}
use betting_service.Mts.{
  save_status, upsert_status, process_bet_accepted, refund, revert, reject, process_bet_rejected,
  debit_paid, cancel_unanswered, retract, time_out, time_out_row, cancel_timed_out,
  task_mts_timeout,
}

module _ {N : Type 0} (l : Ledger N) where
  save_status-Follows : (st : BetStatus) → Follows l (save_status st)
  unfolding save_status
  save_status-Follows st = search following

  upsert_status-view : (st : BetStatus) (s : Store N) → view (upsert_status st s) ≡ view s
  unfolding upsert_status
  upsert_status-view st s = ground arith

  pub process_bet_accepted-Follows : (id : ℕ) → Follows l (process_bet_accepted id)
  unfolding process_bet_accepted
  process_bet_accepted-Follows id = search (following, Steps-same, upsert_status-view)

  module _ (sys : System N) where
    refund-Follows :
        (subject : Subject) (bet : Option (Bet N))
        → is_win subject ≡ false
        → Follows l (refund sys subject bet)
    unfolding refund
    refund-Follows subject none e = search following
    refund-Follows subject (some bet) e = search (following, e)

    revert-Follows : (id : ℕ) → Follows l (revert sys id)
    unfolding revert
    revert-Follows id = search (following, refund-Follows)

    reject-Follows : (id : ℕ) (reason : List ℕ) → Follows l (reject sys id reason)
    unfolding reject
    reject-Follows id reason = search (following, save_status-Follows, revert-Follows)

    pub process_bet_rejected-Follows :
        (id : ℕ) (reason : List ℕ) → Follows l (process_bet_rejected sys id reason)
    unfolding process_bet_rejected
    process_bet_rejected-Follows id reason = search (following, reject-Follows)

    retract-Follows : (row : Bet N) → Follows l (retract sys row)
    unfolding retract debit_paid cancel_unanswered
    retract-Follows row = search (following, refund-Follows)

    time_out_row-Follows : (row : Bet N) → Follows l (time_out_row sys row)
    unfolding time_out_row time_out
    time_out_row-Follows row = search (following, save_status-Follows, retract-Follows)

    pub task_mts_timeout-Follows : Follows l (task_mts_timeout sys)
    unfolding task_mts_timeout cancel_timed_out
    task_mts_timeout-Follows = search (following, exclusively-Follows, time_out_row-Follows)

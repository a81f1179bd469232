-- ===== src/Service.antt =====
-- The service as one machine: the methods that other services call (src/bets/bets.controller.ts), the
-- messages of the queues (src/consumers/consumer.service.ts) and the timed jobs
-- (src/cronjobs/cronjob.service.ts), each of which runs one handler. A method that lists or reports is left
-- out, and so is the MTS timeout, whose timer is commented out.
pub mod Accounts
mod Tests
use betting_service.Prelude.{ℕ, String, Bool, List, [], ◌∷◌, Option}
use betting_service.Store.{Store, System}
use betting_service.Store.Action.{Action, return, ◌>>=◌, ◌>>◌}
use betting_service.Placing
use betting_service.Placing.Quoting.{PlaceBetRequest, Services}
use betting_service.Placing.Coupon.{find_coupon}
use betting_service.Updating
use betting_service.Updating.{UpdateBetRequest}
use betting_service.Cashout.{process_cashout}
use betting_service.Casino
use betting_service.Casino.{PlaceCasinoBetRequest, SettleCasinoBetRequest}
use betting_service.Virtual
use betting_service.Virtual.{PlaceVirtualBetRequest, SettleVirtualBetRequest}
use betting_service.Ingest.{SettlementMessage, Scores, create_settlement}
use betting_service.Mts.{process_bet_accepted, process_bet_rejected}
use betting_service.Cancel.{CancelMessage, process_bet_cancel}
use betting_service.Rollback.{RollbackMessage, create_settlement_rollback}
use betting_service.Resulting.{task_process_bet_resulting}
use betting_service.Resulting.Repair.{task_fix_invalid_bet_status, task_request_settlement}
use betting_service.Settling.Tasks.{task_process_bet_settlement}
use betting_service.Settling.Unsettled.{task_process_unsettled_bet}
use betting_service.Closing.{close_bet}
use betting_service.Cron.{reset_cronjobs}

-- The methods of the controller.
pub data Method (N : Type 0) : Type 0 where
  place_bet : Services N → PlaceBetRequest N → Method N
  find_bet : Services N → (betslip_id : String) → (client_id : ℕ) → Method N
  update_bet : UpdateBetRequest → Method N
  cashout_request : (bet_id : ℕ) → (amount : N) → Method N
  place_casino_bet : PlaceCasinoBetRequest N → Method N
  settle_casino_bet : SettleCasinoBetRequest N → Method N
  cancel_casino_bet : (transaction_id : String) → Method N
  close_casino_round : (round_id : String) → Method N
  place_virtual_bet : PlaceVirtualBetRequest N → Method N
  get_virtual_bet : (client_id : ℕ) → (game_id transaction_id : String) → Method N
  settle_virtual_bet : SettleVirtualBetRequest N → Method N

-- The queues; those with a number differ in their names alone. `settlement` comes with what the feed
-- answers to `getMatchInfo`.
pub data Message (N : Type 0) : Type 0 where
  settlement : Option Scores → SettlementMessage N → Message N
  settle_bets : Message N
  bet_cancel : CancelMessage → Message N
  rollback_bet_settlement : RollbackMessage → Message N
  bet_accepted : (bet_id : ℕ) → Message N
  bet_rejected : (bet_id : ℕ) → (reason : List ℕ) → Message N

-- The timers. `started` is a `closeBet` that a run of `processUnsettledBets` started.
pub data Job : Type 0 where
  process_bet_resulting process_bet_settlement start_up process_unsettled_bets : Job
  process_resend_settlement : (is_due : String → Bool) → Job
  started : (bet_id : ℕ) → Job

pub data Request (N : Type 0) : Type 0 where
  method : Method N → Request N
  message : Message N → Request N
  job : Job → Request N

module _ {N : Type 0} where
  -- The reply goes to the caller.
  abbrev pub ignore : {A : Type 0} → Action N A → Action N (Unit {0})
  ignore m = m >>= λ _. return tt

  pub call_method : System N → Method N → Action N (Unit {0})
  call_method sys (place_bet svc req) = ignore (Placing.place_bet sys svc req)
  call_method sys (find_bet svc betslip_id client_id) =
      ignore (find_coupon sys svc betslip_id client_id)
  call_method sys (update_bet req) = ignore (Updating.update_bet sys req)
  call_method sys (cashout_request bet_id amount) = ignore (process_cashout sys bet_id amount)
  call_method sys (place_casino_bet req) = ignore (Casino.place_casino_bet sys req)
  call_method sys (settle_casino_bet req) = ignore (Casino.settle_casino_bet sys req)
  call_method sys (cancel_casino_bet id) = ignore (Casino.cancel_casino_bet sys id)
  call_method sys (close_casino_round id) = ignore (Casino.close_casino_round sys id)
  call_method sys (place_virtual_bet req) = ignore (Virtual.place_virtual_bet sys req)
  call_method sys (get_virtual_bet client_id game_id transaction_id) =
      ignore (Virtual.get_virtual_ticket sys client_id game_id transaction_id)
  call_method sys (settle_virtual_bet req) = ignore (Virtual.settle_bet sys req)

  pub consume : System N → Message N → Action N (Unit {0})
  consume sys (settlement scores msg) = ignore (create_settlement sys scores msg)
  consume sys settle_bets = return tt
  consume sys (bet_cancel msg) = ignore (process_bet_cancel sys msg)
  consume sys (rollback_bet_settlement msg) = ignore (create_settlement_rollback sys msg)
  consume sys (bet_accepted bet_id) = ignore (process_bet_accepted bet_id)
  consume sys (bet_rejected bet_id reason) = ignore (process_bet_rejected sys bet_id reason)

  pub run_job : System N → Job → Action N (Unit {0})
  run_job sys process_bet_resulting = task_process_bet_resulting sys
  run_job sys process_bet_settlement = task_process_bet_settlement sys
  run_job sys start_up = reset_cronjobs >> task_fix_invalid_bet_status sys
  run_job sys process_unsettled_bets = ignore (task_process_unsettled_bet sys)
  run_job sys (process_resend_settlement is_due) = task_request_settlement is_due
  run_job sys (started bet_id) = ignore (close_bet sys bet_id)

  pub serve : System N → Request N → Action N (Unit {0})
  serve sys (method m) = call_method sys m
  serve sys (message m) = consume sys m
  serve sys (job j) = run_job sys j

  -- What a sequence of requests leaves, each with its own clock, services and failures.
  pub serve_all : List (System N × Request N) → Store N → Store N
  serve_all [] s = s
  serve_all ((sys, r) ∷ rs) s = serve_all rs (serve sys r s).1

-- ===== src/Service/Accounts.antt =====
-- Every request follows the ledger, so whatever requests come, in whatever order and whatever fails, the
-- service pays no bet twice and changes no stake.
use betting_service.Prelude.{List, [], ◌∷◌, map}
use betting_service.Store.{Store, System}
use betting_service.Store.Action.{Action}
use betting_service.Store.Keeps.{Keeps-return, Keeps-bind}
use betting_service.Ledger.{Ledger, view, account, Steps, here}
use betting_service.Ledger.Rules.{Follows}
use betting_service.Ledger.Laws.{Balanced, Steps-Balanced, Extends, Steps-Extends}
use betting_service.Placing.Follows.{place_bet-Follows, find_coupon-Follows}
use betting_service.Updating.Follows.{update_bet-Follows}
use betting_service.Cashout.Follows.{process_cashout-Follows}
use betting_service.Casino.Follows.{
  place_casino_bet-Follows, settle_casino_bet-Follows, cancel_casino_bet-Follows,
  close_casino_round-Follows,
}
use betting_service.Virtual.Follows.{
  place_virtual_bet-Follows, get_virtual_ticket-Follows, settle_bet-Follows,
}
use betting_service.Ingest.Follows.{create_settlement-Follows}
use betting_service.Mts.Follows.{process_bet_accepted-Follows, process_bet_rejected-Follows}
use betting_service.Cancel.Follows.{process_bet_cancel-Follows}
use betting_service.Rollback.Follows.{create_settlement_rollback-Follows}
use betting_service.Resulting.Follows.{
  task_process_bet_resulting-Follows, task_fix_invalid_bet_status-Follows,
  task_request_settlement-Follows,
}
use betting_service.Settling.Follows.{
  task_process_bet_settlement-Follows, task_process_unsettled_bet-Follows,
}
use betting_service.Closing.Follows.{close_bet-Follows}
use betting_service.Cron.Follows.{reset_cronjobs-Follows}
use betting_service.Service.{
  Method, place_bet, find_bet, update_bet, cashout_request, place_casino_bet, settle_casino_bet,
  cancel_casino_bet, close_casino_round, place_virtual_bet, get_virtual_bet, settle_virtual_bet,
  Message, settlement, settle_bets, bet_cancel, rollback_bet_settlement, bet_accepted, bet_rejected,
  Job, process_bet_resulting, process_bet_settlement, start_up, process_unsettled_bets,
  process_resend_settlement, started, Request, method, message, job, ignore, call_method, consume,
  run_job, serve, serve_all,
}

module _ {N : Type 0} (l : Ledger N) (sys : System N) where
  ignore-Follows : {A : Type 0} (m : Action N A) → Follows l m → Follows l (ignore m)
  ignore-Follows m h = Keeps-bind m _ h (λ _. Keeps-return tt)

  call_method-Follows : (m : Method N) → Follows l (call_method sys m)
  unfolding call_method
  call_method-Follows (place_bet svc req) = ignore-Follows _ (place_bet-Follows l sys svc req)
  call_method-Follows (find_bet svc id client_id) =
      ignore-Follows _ (find_coupon-Follows l sys svc id client_id)
  call_method-Follows (update_bet req) = ignore-Follows _ (update_bet-Follows l sys req)
  call_method-Follows (cashout_request id amount) =
      ignore-Follows _ (process_cashout-Follows l sys id amount)
  call_method-Follows (place_casino_bet req) = ignore-Follows _ (place_casino_bet-Follows l sys req)
  call_method-Follows (settle_casino_bet req) =
      ignore-Follows _ (settle_casino_bet-Follows l sys req)
  call_method-Follows (cancel_casino_bet id) = ignore-Follows _ (cancel_casino_bet-Follows l sys id)
  call_method-Follows (close_casino_round id) =
      ignore-Follows _ (close_casino_round-Follows l sys id)
  call_method-Follows (place_virtual_bet req) =
      ignore-Follows _ (place_virtual_bet-Follows l sys req)
  call_method-Follows (get_virtual_bet client_id game_id id) =
      ignore-Follows _ (get_virtual_ticket-Follows l sys client_id game_id id)
  call_method-Follows (settle_virtual_bet req) = ignore-Follows _ (settle_bet-Follows l sys req)

  consume-Follows : (m : Message N) → Follows l (consume sys m)
  unfolding consume
  consume-Follows (settlement scores msg) =
      ignore-Follows _ (create_settlement-Follows l sys scores msg)
  consume-Follows settle_bets = Keeps-return tt
  consume-Follows (bet_cancel msg) = ignore-Follows _ (process_bet_cancel-Follows l sys msg)
  consume-Follows (rollback_bet_settlement msg) =
      ignore-Follows _ (create_settlement_rollback-Follows l sys msg)
  consume-Follows (bet_accepted id) = ignore-Follows _ (process_bet_accepted-Follows l id)
  consume-Follows (bet_rejected id reason) =
      ignore-Follows _ (process_bet_rejected-Follows l sys id reason)

  run_job-Follows : (j : Job) → Follows l (run_job sys j)
  unfolding run_job
  run_job-Follows process_bet_resulting = task_process_bet_resulting-Follows l sys
  run_job-Follows process_bet_settlement = task_process_bet_settlement-Follows l sys
  run_job-Follows start_up =
      Keeps-bind _ _ (reset_cronjobs-Follows l) (λ _. task_fix_invalid_bet_status-Follows l sys)
  run_job-Follows process_unsettled_bets =
      ignore-Follows _ (task_process_unsettled_bet-Follows l sys)
  run_job-Follows (process_resend_settlement is_due) = task_request_settlement-Follows l sys is_due
  run_job-Follows (started id) = ignore-Follows _ (close_bet-Follows l sys id)

  serve-Follows : (r : Request N) → Follows l (serve sys r)
  unfolding serve
  serve-Follows (method m) = call_method-Follows m
  serve-Follows (message m) = consume-Follows m
  serve-Follows (job j) = run_job-Follows j

module _ {N : Type 0} where
  serve_all-follows :
      (l : Ledger N) (rs : List (System N × Request N)) (s : Store N)
      → Steps l (view s)
      → Steps l (view (serve_all rs s))
  unfolding serve_all
  serve_all-follows l [] s h = h
  serve_all-follows l ((sys, r) ∷ rs) s h =
      serve_all-follows l rs (serve sys r s).1 ((serve-Follows l sys r).at s h)

  -- Whatever requests come, in whatever order, and whatever statement or service fails: what they do to
  -- the bets, the winnings and the credits of winnings is a sequence of steps of the ledger, each of
  -- which opens a bet, or records the winning of a bet that has none and credits it at most once.
  pub serve_all-Steps :
      (rs : List (System N × Request N)) (s : Store N) → Steps (view s) (view (serve_all rs s))
  serve_all-Steps rs s = serve_all-follows (view s) rs s here

  -- If no bet has two winnings and no more winnings are credited than are recorded, then so after any
  -- requests, whatever fails.
  pub serve_all-Balanced :
      (rs : List (System N × Request N)) (s : Store N)
      → Balanced (view s)
      → Balanced (view (serve_all rs s))
  serve_all-Balanced rs s h = Steps-Balanced (serve_all-Steps rs s) h

  -- After any requests the bets that were there are the first of the bets, in their order, with the
  -- identifier, client, user, bonus, name, code, stake, currency, source and date that they had.
  pub serve_all-Extends :
      (rs : List (System N × Request N)) (s : Store N)
      → Extends (map account s.bets) (map account (serve_all rs s).bets)
  serve_all-Extends rs s = Steps-Extends (serve_all-Steps rs s)

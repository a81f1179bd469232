-- ===== src/Service/Tests.antt =====
-- A day of the service at the samples: a bet is cashed out, its worker and a manual update come after,
-- and the wallet fails once.
use betting_service.Prelude.{ℕ, arith, List, [], ◌∷◌, map}
use betting_service.Store.{System}
use betting_service.Ledger.{Steps, view, account}
use betting_service.Ledger.Laws.{Balanced, Extends}
use betting_service.Service.{
  Request, method, message, job, cashout_request, update_bet, started, process_bet_resulting,
  bet_accepted, bet_rejected, start_up, serve_all,
}
use betting_service.Service.Accounts.{serve_all-Steps, serve_all-Balanced, serve_all-Extends}
use betting_service.Samples.{running, silent, store}

abbrev day : List (System ℕ × Request ℕ)
day =
    (running, job start_up)
    ∷ (running, message (bet_accepted 7))
    ∷ (silent, job process_bet_resulting)
    ∷ (running, method (cashout_request 7 300))
    ∷ (running, job (started 7))
    ∷ (
      running,
      method (
          update_bet
            (record { bet_id = 7; status = "won"; entity_type = "bet"; selection_id = 0 })),
    )
    ∷ (running, message (bet_rejected 8 []))
    ∷ []

serve_all-Steps_example : Steps (view store) (view (serve_all day store))
serve_all-Steps_example = serve_all-Steps day store

serve_all-Balanced_example : Balanced (view (serve_all day store))
serve_all-Balanced_example = serve_all-Balanced day store (tt, omega arith)

serve_all-Extends_example :
    Extends (map account store.bets) (map account (serve_all day store).bets)
serve_all-Extends_example = serve_all-Extends day store

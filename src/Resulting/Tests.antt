-- ===== src/Resulting/Tests.antt =====
-- The resulting task at the samples.
use betting_service.Prelude.{◌≡◌, ◌∷◌, [], List, ◌==◌, false, refl}
use betting_service.Table.{exists_where, All}
use betting_service.Entity.Records.{BetClosure}
use betting_service.Store.{ok}
use betting_service.Store.Action.{for_each}
use betting_service.Resulting.{task_process_bet_resulting, close_closure}
use betting_service.Resulting.Closures.{task_process_bet_resulting_returns}
use betting_service.Resulting.Emptied.{close_closure-empties}
use betting_service.Samples.{no_winnings, store}

task_process_bet_resulting_returns_example :
    (task_process_bet_resulting no_winnings
      (record store { closures = record { bet_id = 7 } ∷ [] })).0
    ≡ ok tt
task_process_bet_resulting_returns_example =
    task_process_bet_resulting_returns no_winnings
      (record store { closures = record { bet_id = 7 } ∷ [] })

abbrev won_closure : List BetClosure
won_closure = record { bet_id = 7 } ∷ []

close_closure-empties_example :
    All
      (λ row.
        exists_where
          (λ c. c.bet_id == row.bet_id)
          (for_each won_closure
            (close_closure no_winnings)
            (record store { closures = won_closure })).1.closures
        ≡ false)
      won_closure
close_closure-empties_example =
    close_closure-empties no_winnings refl won_closure (record store { closures = won_closure })

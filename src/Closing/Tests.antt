-- ===== src/Closing/Tests.antt =====
-- closeBet at the samples.
use betting_service.Prelude.{◌==◌, ◌≡◌, refl, [], ◌∷◌, some, arith, false}
use betting_service.Table.{select_where, exists_where, update_where}
use betting_service.Store.{credit, sport}
use betting_service.Closing.{
  resulting, settlement, close, marks, win_payload, winning_of, is_payable, is_payable_won, ok,
  Worker, System, ℕ,
}
use betting_service.Closing.Once.{close-close}
use betting_service.Closing.Payout.{close-pays, close_strands}
use betting_service.Samples.{running, silent, no_winnings, store, won_bet}

close-close_example :
    let t = (close resulting running 7 store).1 in (close settlement silent 7 t).1 ≡ t
unfolding select_where is_payable_won is_payable exists_where
close-close_example = close-close resulting settlement running silent 7 store refl refl (λ h. cc)

close-pays_example :
    let (r, t) = close resulting silent 7 store in
    (t.sent ≡ credit (win_payload won_bet sport 3000) ∷ [])
    × (t.winnings ≡ record (winning_of 7 won_bet) { id = 1 } ∷ [])
    × (t.bets ≡ update_where (λ b. b.id == 7) (marks resulting silent) store.bets)
    × (r ≡ ok (some 1))
unfolding select_where is_payable_won is_payable exists_where
close-pays_example =
    close-pays silent 7 store won_bet [] (record { success = false; amount = 0 }) (λ e. cc)
      (omega arith) refl refl refl resulting refl

close_strands_example :
    let t = (close settlement no_winnings 7 store).1 in
    (t.sent ≡ store.sent)
    × (t.winnings ≡ store.winnings)
    × (t.bets ≡ update_where (λ b. b.id == 7) (marks settlement no_winnings) store.bets)
    × ((w : Worker) (sys' : System ℕ) → (close w sys' 7 t).1 ≡ t)
unfolding select_where is_payable exists_where
close_strands_example = close_strands no_winnings 7 store won_bet [] refl refl refl settlement refl

-- ===== src/Cancel/Refunds.antt =====
-- The bets are marked as cancelled before those to refund are selected.
use betting_service.Prelude.{ℕ, String, ◌≡◌, refl, Bool, List, [], ◌∷◌, arith, ◌&&◌}
use betting_service.Int.{◌=ℤ◌, bet_pending}
use betting_service.Table.{select_where, update_where}
use betting_service.Table.Rows.{select-update_none}
use betting_service.Entity.Bet.{Bet}
use betting_service.Entity.Slip.{BetSlip}
use betting_service.Store.{Store, System}
use betting_service.Store.Action.{steps, for_each}
use betting_service.Store.Keeps.{Leaves, keeping, Leaves-at}
use betting_service.Cancel.{
  CancelMessage, Market, is_in, cancel_bet, cancel_bets, cancel_saved, save_cancel, cancel_found,
  cancel_market, process_bet_cancel, process_outrights_bet_cancel,
}

module _ {N : Type 0} (sys : System N) (msg : CancelMessage) (event_type : String) where
  pub no_pending_left :
      (ids : List ℕ) (bets : List (Bet N))
      → select_where
          (λ b. (b.status =ℤ bet_pending) && is_in ids b.id)
          (update_where (λ b. is_in ids b.id) cancel_bet bets)
        ≡ []
  no_pending_left ids bets =
      select-update_none (λ b. is_in ids b.id) _ cancel_bet (λ b h. refl) (λ b h. ground arith) bets

  cancel_saved-sent : (ids : List ℕ) → Leaves (λ t. t.sent) (cancel_saved sys ids)
  unfolding cancel_saved steps
  cancel_saved-sent ids c = record { at = λ s h. rw (no_pending_left ids s.bets, for_each) h }

  cancel_bets-sent :
      (market : Market) (ids : List ℕ)
      → Leaves (λ t. t.sent) (cancel_bets sys msg event_type market ids)
  unfolding cancel_bets save_cancel
  cancel_bets-sent market ids c = search (keeping, cancel_saved-sent) depth 8

  cancel_found-sent :
      (market : Market) (ids : List ℕ)
      → Leaves (λ t. t.sent) (cancel_found sys msg event_type market ids)
  unfolding cancel_found
  cancel_found-sent market [] c = search keeping
  cancel_found-sent market (id ∷ ids) c = cancel_bets-sent market (id ∷ ids) c

  cancel_market-sent :
      (in_scope : CancelMessage → Market → BetSlip N → Bool) (market : Market)
      → Leaves (λ t. t.sent) (cancel_market sys in_scope msg event_type market)
  unfolding cancel_market
  cancel_market-sent in_scope market c = search (keeping, cancel_found-sent)

module _ {N : Type 0} (sys : System N) (msg : CancelMessage) where
  bet_cancel-sent : Leaves (λ t. t.sent) (process_bet_cancel sys msg)
  unfolding process_bet_cancel
  bet_cancel-sent c = search (keeping, cancel_market-sent)

  outrights_cancel-sent : Leaves (λ t. t.sent) (process_outrights_bet_cancel sys msg)
  unfolding process_outrights_bet_cancel
  outrights_cancel-sent c = search (keeping, cancel_market-sent)

  -- No cancellation, of a market or of an outright, refunds anybody: it makes no call to the wallet or
  -- to the bonus service, whatever slips and bets there are.
  pub bet_cancel-refunds_none :
      (s : Store N)
      → ((process_bet_cancel sys msg s).1.sent ≡ s.sent)
        × ((process_outrights_bet_cancel sys msg s).1.sent ≡ s.sent)
  bet_cancel-refunds_none s = (
    Leaves-at (λ t. t.sent) (process_bet_cancel sys msg) bet_cancel-sent s,
    Leaves-at (λ t. t.sent) (process_outrights_bet_cancel sys msg) outrights_cancel-sent s,
  )

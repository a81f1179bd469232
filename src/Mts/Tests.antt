-- ===== src/Mts/Tests.antt =====
-- The MTS handlers at the samples.
use betting_service.Prelude.{◌==◌, ◌+◌, ◌≡◌, refl, [], ◌∷◌, true, ◌≤◌}
use betting_service.Table.{exists_where, update_where, find_where}
use betting_service.Store.{bet_rejected_mts}
use betting_service.Mts.{process_bet_rejected, reject_bet, cancel_slip, length}
use betting_service.Mts.Refund.{rejected-refunds, refunded}
use betting_service.Mts.Backed.{handle_all-backed, handle_all, refunds, accepted, rejected, timeout}
use betting_service.Samples.{running, silent, store, open_bet}

rejected-refunds_example :
    let t = (process_bet_rejected running 8 [] store).1 in
    (t.sent ≡ refunded running bet_rejected_mts open_bet store.sent)
    × (t.bets ≡ update_where (λ b. b.id == 8) reject_bet store.bets)
    × (t.slips ≡ update_where (λ b. b.bet_id == 8) cancel_slip store.slips)
unfolding exists_where find_where
rejected-refunds_example =
    rejected-refunds running 8 [] store open_bet refl refl
      (λ e. (record { success = true; amount = 700 }, refl))

handle_all-backed_example :
    let t =
      handle_all
        ((running, rejected 8 []) ∷ (silent, timeout) ∷ (running, accepted 7) ∷ [])
        store in
    refunds t.sent + length store.statuses ≤ refunds store.sent + length t.statuses
handle_all-backed_example =
    handle_all-backed ((running, rejected 8 []) ∷ (silent, timeout) ∷ (running, accepted 7) ∷ [])
      store

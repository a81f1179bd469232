-- ===== src/Updating/Tests.antt =====
-- `updateBet` at the samples.
use betting_service.Prelude.{ℕ, ◌==◌, ◌≡◌, refl, String, true, [], ◌∷◌, map, some}
use betting_service.Table.{find_where, exists_where, update_where}
use betting_service.Store.{ok, Store}
use betting_service.Updating.{
  UpdateBetRequest, won, update_bet, decision_of, updated, mark_manually,
}
use betting_service.Updating.Results.{AllAnswer, update_bet-writes, calls_of, slips_of, winnings_of}
use betting_service.Updating.Again.{update_all-returns, update_all, payments, stake_of}
use betting_service.Updating.Selection.{void_selection-loses}
use betting_service.Settling.{Verdict, start_tally, tally_slips, verdict_of}
use betting_service.Samples.{running, store, won_bet, open_bet, slip, hundredths}

running-AllAnswer : AllAnswer running
running-AllAnswer =
    (λ es q. (record { success = true; amount = 700 }, refl), λ es p. (some 5000, refl), refl)

abbrev request : String → String → UpdateBetRequest
request status entity_type = record {
  bet_id = 8;
  status = status;
  entity_type = entity_type;
  selection_id = 70;
}

update_bet-writes_example :
    let (r, t) = update_bet running (request "won" "bet") store in
    (r ≡ ok (updated "bet"))
    × (t.sent ≡ calls_of running won open_bet [])
    × (t.winnings ≡ winnings_of won open_bet store)
    × (t.slips ≡ slips_of won 8 store.slips)
    × (t.bets ≡ update_where (λ b. b.id == 8) (mark_manually running won) store.bets)
unfolding find_where exists_where decision_of
update_bet-writes_example =
    update_bet-writes running running-AllAnswer (request "won" "bet") open_bet store refl refl refl

abbrev has_paid : Store ℕ
has_paid = record store {
  winnings =
      record {
        id = 1;
        bet_id = 8;
        client_id = 1;
        user_id = 42;
        currency = "NGN";
        winning_before_tax = 3000;
        tax_on_winning = 0;
        winning_after_tax = 3000;
      }
      ∷ [];
}

update_all-returns_example :
    payments (update_all running (request "void" "bet" ∷ request "cancel" "bet" ∷ []) store).sent
    ≡ stake_of open_bet ∷ stake_of open_bet ∷ payments store.sent
unfolding find_where decision_of
update_all-returns_example =
    update_all-returns running running-AllAnswer 8
      (request "void" "bet" ∷ request "cancel" "bet" ∷ []) open_bet store
      ((refl, refl, refl), ((refl, refl, refl), tt)) refl

void_selection-loses_example :
    let (r, t) = update_bet running (request "void" "selection") store in
    (r ≡ ok (updated "selection"))
    × (map verdict_of (tally_slips hundredths t.slips (start_tally won_bet ∷ []))
        ≡ Verdict.lost ∷ [])
unfolding find_where decision_of
void_selection-loses_example =
    void_selection-loses running (request "void" "selection") open_bet won_bet slip store refl refl
      refl refl refl

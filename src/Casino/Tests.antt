-- ===== src/Casino/Tests.antt =====
-- Casino bets at the samples.
use betting_service.Prelude.{ℕ, ◌≡◌, refl, [], ◌∷◌, none}
use betting_service.Store.{Store, ok}
use betting_service.Table.{find_where, select_where, update_where}
use betting_service.Entity.Games.{CasinoBet}
use betting_service.Casino.{
  SettleCasinoBetRequest, settled, cancelled, already_processed, already_closed, settle_casino_bet,
  cancel_casino_bet, has_transaction, set_status, result_of,
}
use betting_service.Casino.Rounds.{settle_casino_bet-writes, cancel_casino_bet-final}
use betting_service.Samples.{running, store}

abbrev first_bet : CasinoBet ℕ
first_bet = record {
  id = 1;
  client_id = 1;
  user_id = 42;
  bonus_id = none;
  username = "ada";
  round_id = "r9";
  game_id = "slots";
  game_name = none;
  game_number = none;
  source = none;
  cashier_transaction_id = none;
  stake = 1000;
  winnings = 0;
  commission = 0;
  transaction_id = "t1";
  status = 0;
  created_at = 0;
}

abbrev second_bet : CasinoBet ℕ
second_bet = record first_bet { id = 2; winnings = 700 }

abbrev casino_store : Store ℕ
casino_store = record store { casino_bets = first_bet ∷ second_bet ∷ [] }

abbrev request : SettleCasinoBetRequest ℕ
request = record { transaction_id = "t1"; winnings = 300; provider = "smart-soft" }

-- Both rows are given 10.00, though the first had none.
settle_casino_bet-writes_example : settle_casino_bet running request casino_store ≡ (
  ok (settled 1),
  record casino_store {
    casino_bets =
        record first_bet { winnings = 1000; status = 1 }
        ∷ record second_bet { winnings = 1000; status = 1 }
        ∷ [];
  },
)
unfolding select_where update_where result_of
settle_casino_bet-writes_example =
    settle_casino_bet-writes running refl request first_bet (second_bet ∷ []) casino_store refl refl
      (refl, (refl, tt)) refl

cancel_casino_bet-final_example :
    let t = record casino_store {
      casino_bets = update_where (has_transaction "t1") (set_status 3) casino_store.casino_bets;
    } in
    (cancel_casino_bet running "t1" casino_store ≡ (ok cancelled, t))
    × (cancel_casino_bet running "t1" t ≡ (ok already_processed, t))
    × (settle_casino_bet running request t ≡ (ok (already_closed 1), t))
unfolding find_where
cancel_casino_bet-final_example =
    cancel_casino_bet-final running refl request first_bet casino_store refl refl refl refl

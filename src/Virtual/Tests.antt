-- ===== src/Virtual/Tests.antt =====
-- Virtual bets at the samples.
use betting_service.Prelude.{ℕ}
use betting_service.Virtual.{PlaceVirtualBetRequest}

abbrev request : PlaceVirtualBetRequest ℕ
request = record {
  client_id = 1;
  user_id = 42;
  username = "ada";
  game_id = "dogs";
  round_id = "r9";
  transaction_id = "t1";
  transaction_category = "bet";
  stake = 1000;
}

-- ===== src/Reports/Games/Tests.antt =====
-- The lists of virtual and casino bets at two bets.
use betting_service.Prelude.{ℕ, ◌≡◌, refl, true, [], ◌∷◌, map, drop, none}
use betting_service.Table.{select_where, newest_first, insert_newest}
use betting_service.Entity.Games.{VirtualBet}
use betting_service.Store.{Store, ok}
use betting_service.Reports.Games.{
  GameRequest, no_status, get_virtual_tickets, game_page, page_rows, in_period, agent_v_bets,
  fetch_user_ids, of_users,
}
use betting_service.Reports.Games.Pages.{
  all_pages, named_pages, virtual_page, casino_page, virtual_rows, casino_rows, shown,
  get_virtual_tickets-all_pages,
}
use betting_service.Samples.{hundredths, store}

abbrev older : VirtualBet ℕ
older = record {
  id = 1;
  client_id = 1;
  user_id = 5;
  username = "ada";
  round_id = "r1";
  game_id = "dogs";
  stake = 100;
  winnings = 0;
  jackpot_amount = 0;
  commission = 0;
  transaction_id = "t1";
  transaction_category = "bet";
  game_cycle_closed = 0;
  status = 0;
  created_at = 10;
}

abbrev game_store : Store ℕ
game_store = record store {
  virtual_bets = older ∷ record older { id = 2; transaction_id = "t2"; created_at = 20 } ∷ [];
}

abbrev all_games : GameRequest
all_games = record { client_id = 1; username = ""; from = 0; to = 100; page = 1 }

-- Of two bets the first page shows the older alone.
newest_missing :
    map
      (λ b. b.id)
      (shown (get_virtual_tickets hundredths (λ a b. true) no_status all_games game_store))
    ≡ 1 ∷ []
unfolding get_virtual_tickets game_page page_rows in_period select_where newest_first insert_newest
newest_missing = refl

-- An agent without users gets an error.
no_users : agent_v_bets hundredths (λ a b. true) (ok none) 100 all_games game_store ≡ none
unfolding agent_v_bets fetch_user_ids of_users
no_users = refl

get_virtual_tickets-all_pages_example :
    (all_pages
        (virtual_page hundredths (λ a b. true) no_status all_games game_store)
        (named_pages (virtual_page hundredths (λ a b. true) no_status all_games game_store 1))
      ≡ drop 1 (virtual_rows hundredths (λ a b. true) no_status all_games game_store))
    × (all_pages
          (casino_page hundredths (λ a b. true) no_status all_games game_store)
          (named_pages (casino_page hundredths (λ a b. true) no_status all_games game_store 1))
        ≡ drop 1 (casino_rows hundredths (λ a b. true) no_status all_games game_store))
get_virtual_tickets-all_pages_example =
    get_virtual_tickets-all_pages hundredths (λ a b. true) no_status all_games game_store

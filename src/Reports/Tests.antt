-- ===== src/Reports/Tests.antt =====
-- The reports at the samples.
use betting_service.Prelude.{ℕ, ◌≡◌, refl, [], ◌∷◌, map, none}
use betting_service.Table.{select_where, delete_where, exists_where}
use betting_service.Store.{Store}
use betting_service.Listing.{HistoryRequest, any_status, where_of}
use betting_service.Reports.{delete_player_data, get_sports_tickets, report_with}
use betting_service.Samples.{running, store, open_bet}

-- The bets 8 and 9 of the player have no slips.
abbrev deleted : Store ℕ
deleted = delete_player_data open_bet.user_id store

-- They stay.
deleted_bets : map (λ b. b.id) deleted.bets ≡ 8 ∷ 9 ∷ []
unfolding delete_player_data delete_where select_where exists_where
deleted_bets = refl

-- A report that asks for nothing but a client fails.
abbrev unfiltered : HistoryRequest
unfiltered = record {
  user_id = 0;
  client_id = open_bet.client_id;
  from = none;
  to = none;
  status = any_status;
  page = 1;
  per_page = 50;
  betslip_id = "";
  username = "";
}

unfiltered_fails : get_sports_tickets running unfiltered store ≡ none
unfolding get_sports_tickets report_with where_of
unfiltered_fails = refl
